-- ===== src/Treasury/Invitations/Tending.antt =====
-- `maintainInvitations` of src/treasury.ts: vouchers that expired, that wait for a ChainLock, and new
-- ones up to the target.
use dash_faucet_cf.Base.{
  ℕ, zero, suc, ◌+◌, ◌-◌, Bool, true, false, ◌&&◌, ◌||◌, not, Option, none, some, List, [], ◌∷◌,
  leb, ltb, if◌then◌else◌, filter,
}
use dash_faucet_cf.Config.{FaucetConfig, InvitationConfig}
use dash_faucet_cf.Db.{Db, InvitationRow, broadcast_unknown, awaiting_chainlock, issued}
use dash_faucet_cf.Chain.{ChainLockStatus}
use dash_faucet_cf.Treasury.{World}
use dash_faucet_cf.Treasury.Ledger.{prune, record_spend}
use dash_faucet_cf.Treasury.Broadcast.{Settlement, settled, unsettled, threw, settle_broadcast}
use dash_faucet_cf.Treasury.Invitations.{
  Vault, in_state, update_voucher, as_claimed, as_recycled, as_locked, as_awaiting, as_rejected,
  backfill_invitation_amounts, invitation_counts,
}
use dash_faucet_cf.Treasury.Invitations.Minting.{
  Coinage, MintRefusal, minted, refused, lost, mint_invitation,
}

-- `InvitationMaintenanceResult` by its action and the numbers of its detail; `aborted` is a rejected
-- promise.
pub data Tended : Type 0 where
  disabled unchanged aborted : Tended
  updated : ℕ → ℕ → ℕ → Tended
  minted_all : ℕ → Tended
  minted_some : ℕ → MintRefusal → Tended
  blocked : MintRefusal → Tended

-- The three counters of a pass.
pub record Tally : Type 0 where
  pub recycled : ℕ
  pub claimed : ℕ
  pub advanced : ℕ

-- The body of the first loop, for a voucher whose time is over.
unfoldable pub reclaim_voucher : Vault → ℕ → InvitationRow → Db × Tally → Db × Tally
reclaim_voucher vault now row (db, t) = elim (vault.identity_exists row.prospective_identity_id) [
  | none ↦ (db, t)
  | some true ↦ (update_voucher row.id (as_claimed now) db, record t { claimed = t.claimed + 1 })
  | some false ↦
      (update_voucher row.id (as_recycled now) db, record t { recycled = t.recycled + 1 })
]

unfoldable pub reclaim_all : Vault → ℕ → List InvitationRow → Db × Tally → Db × Tally
unfolding reclaim_voucher
reclaim_all vault now [] s = s
reclaim_all vault now (row ∷ rows) s = reclaim_all vault now rows (reclaim_voucher vault now row s)

-- `state = 'issued' AND issued_at <= now - ttlMs`
abbrev pub is_over : InvitationConfig → ℕ → InvitationRow → Bool
is_over cfg now row =
    in_state issued row
    && (elim (row.issued_at) [ none ↦ false | some t ↦ leb (t + cfg.ttl_ms) now ])

-- `Db × Option Tally`: `none` where the chain client threw, which ends the pass.
unfoldable pub settle_pending : InvitationRow → ℕ → Tally → Db × Settlement → Db × Option Tally
settle_pending row now t (db, settled accepted) = (
  update_voucher row.id (as_awaiting now) (record_spend row.built now db),
  some record t { advanced = t.advanced + 1 },
)
settle_pending row now t (db, unsettled true why) = (db, some t)
settle_pending row now t (db, unsettled false why) =
    (update_voucher row.id (as_rejected now) db, some t)
settle_pending row now t (db, threw) = (db, none)

-- The transaction of a voucher is under a ChainLock at a height.
abbrev pub lock_voucher : InvitationRow → ℕ → ℕ → Db → Db
lock_voucher row height now db =
    update_voucher row.id (as_locked height now)
      (if in_state broadcast_unknown row then record_spend row.built now db else db)

-- `status.chainLocked && status.height !== null`
abbrev pub locked_height : ChainLockStatus → Option ℕ
locked_height status = if status.chain_locked then status.height else none

-- With the status of its transaction: whether it is known, and the height of its lock.
unfoldable pub advance_status :
    World → InvitationRow → Db → Tally → Bool → Option ℕ → Db × Option Tally
unfolding settle_pending
advance_status w row db t known (some height) =
    (lock_voucher row height w.now db, some record t { advanced = t.advanced + 1 })
advance_status w row db t known none =
    if in_state broadcast_unknown row && not known
    then settle_pending row w.now t (settle_broadcast w.network row.built w.now db)
    else (db, some t)

-- The body of the second loop, for a voucher whose transaction is on its way.
unfoldable pub advance_voucher : World → Vault → InvitationRow → Db → Tally → Db × Option Tally
unfolding advance_status
advance_voucher w vault row db t = elim (vault.chain_lock_status row.txid) [
  | none ↦ (db, some t)
  | some status ↦ advance_status w row db t status.known (locked_height status)
]

unfoldable pub advance_all :
    World → Vault → List InvitationRow → Db × Option Tally → Db × Option Tally
unfolding advance_voucher
advance_all w vault rows (db, none) = (db, none)
advance_all w vault [] (db, some t) = (db, some t)
advance_all w vault (row ∷ rows) (db, some t) =
    advance_all w vault rows (advance_voucher w vault row db t)

abbrev pub is_pending : InvitationRow → Bool
is_pending row = in_state broadcast_unknown row || in_state awaiting_chainlock row

-- How the refill ends: complete, stopped, or by an exception.
pub data Refill : Type 0 where
  complete : Refill
  stopped : MintRefusal → Refill
  broken : Refill

-- The loop of the refill over the rounds left: the tables, how many were minted, and its end. Each
-- mint has its own answers from outside.
unfoldable pub refill_inventory :
    InvitationConfig → World → Vault → (ℕ → Coinage) → ℕ → ℕ → Db → Db × ℕ × Refill
refill_inventory cfg w vault coinage zero n db = (db, n, complete)
refill_inventory cfg w vault coinage (suc left) n db =
    let (db', result) = mint_invitation cfg vault w.lib w.key (coinage n) w.now db in
    elim result [
      | minted ↦ refill_inventory cfg w vault coinage left (n + 1) db'
      | refused why ↦ (db', n, stopped why)
      | lost ↦ (db', n, broken)
    ]

-- What the pass reports.
abbrev pub report : Tally → ℕ → Refill → Tended
report t n broken = aborted
report t n (stopped why) = if ltb 0 n then minted_some n why else blocked why
report t n complete =
    if ltb 0 n
    then minted_all n
    else if ltb 0 (t.recycled + t.claimed + t.advanced)
    then updated t.advanced t.recycled t.claimed
    else unchanged

unfoldable pub refill_after :
    InvitationConfig → World → Vault → (ℕ → Coinage) → Db × Option Tally → Db × Tended
unfolding refill_inventory
refill_after cfg w vault coinage (db, none) = (db, aborted)
refill_after cfg w vault coinage (db, some t) =
    let counts = invitation_counts cfg db in
    let (db', n, end) =
      refill_inventory cfg w vault coinage
        (cfg.inventory_target - (counts.available + counts.preparing)) 0 db in
    (db', report t n end)

abbrev pub zero_tally : Tally
zero_tally = record { recycled = 0; claimed = 0; advanced = 0 }

-- The second loop sees the rows as the first has left them.
abbrev pub advance_from : World → Vault → Db × Tally → Db × Option Tally
advance_from w vault (db, t) = advance_all w vault (filter is_pending db.inventory) (db, some t)

unfoldable pub tend_inventory : InvitationConfig → World → Vault → (ℕ → Coinage) → Db → Db × Tended
unfolding reclaim_all advance_all refill_after
tend_inventory cfg w vault coinage db = refill_after cfg w vault coinage (
    advance_from w vault
      (reclaim_all vault w.now (filter (is_over cfg w.now) db.inventory) (db, zero_tally)))

-- `maintainInvitationsLocked`
unfoldable pub maintain_invitations :
    FaucetConfig → World → Vault → (ℕ → Coinage) → Db → Db × Tended
unfolding tend_inventory
maintain_invitations cfg w vault coinage db =
    if cfg.invitations.enabled
    then (if cfg.dry_run
        then (db, unchanged)
        else tend_inventory cfg.invitations w vault coinage
            (backfill_invitation_amounts (prune cfg w.now db)))
    else (db, disabled)
