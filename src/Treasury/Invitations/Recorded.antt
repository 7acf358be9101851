-- ===== src/Treasury/Invitations/Recorded.antt =====
-- Who got vouchers and which capTokens were spent stays on record: the handlers of the inventory in
-- src/treasury.ts take nothing out of those tables but what `prune` deletes.
pub mod Issued
use dash_faucet_cf.Base.{
  ℕ, zero, suc, ◌+◌, ◌-◌, ◌≡◌, refl, ◌∙◌, ap, Bool, true, false, Option, none, some, List, [], ◌∷◌,
  if◌then◌else◌, Bool-cases, inl, inr, filter,
}
use dash_faucet_cf.Config.{InvitationConfig}
use dash_faucet_cf.Db.{Db, InvitationRow, InvitationHit, UsedCap, broadcast_unknown}
use dash_faucet_cf.Tx.{BuiltTx, FaucetKey, Result, ok, err}
use dash_faucet_cf.Chain.{ChainLockStatus}
use dash_faucet_cf.Treasury.{World, Snapshot}
use dash_faucet_cf.Treasury.Books.{Books, spendable_utxos-books, settle_broadcast-books}
use dash_faucet_cf.Treasury.Ledger.{record_spend}
use dash_faucet_cf.Treasury.Broadcast.{Settlement, settled, unsettled, threw}
use dash_faucet_cf.Treasury.Invitations.{Vault, in_state, update_voucher, as_claimed, as_recycled}
use dash_faucet_cf.Treasury.Invitations.Minting.{
  Coinage, MintResult, minted, refused, lost, settle_voucher, mint_built, mint_view,
  mint_invitation,
}
use dash_faucet_cf.Treasury.Invitations.Tending.{
  Tally, Refill, stopped, broken, reclaim_voucher, reclaim_all, settle_pending, lock_voucher,
  advance_status, advance_voucher, advance_all, locked_height, refill_inventory, refill_after,
  is_over, is_pending, zero_tally, advance_from, tend_inventory,
}

-- The hits and the spent capTokens.
abbrev kept_of : Books → List InvitationHit × List UsedCap
kept_of b = (b.invitation_hits, b.used_cap)

abbrev pub records : Db → List InvitationHit × List UsedCap
records db = (db.invitation_hits, db.used_cap)

-- What was done left them as they were.
abbrev pub SameRecords {ℓ} : {A : Type ℓ} → Db × A → Db → Type 0
SameRecords s db = records s.0 ≡ records db

reclaim_voucher-records :
    (vault : Vault) (now : ℕ) (row : InvitationRow) (s : Db × Tally)
    → SameRecords (reclaim_voucher vault now row s) s.0
unfolding reclaim_voucher
reclaim_voucher-records vault now row (db, t) =
    go (vault.identity_exists row.prospective_identity_id)
  where
    go :
        (claim : Option Bool)
        → SameRecords
            (elim claim as (λ x. Db × Tally) [
              | none ↦ (db, t)
              | some true ↦
                  (update_voucher row.id (as_claimed now) db, record t { claimed = t.claimed + 1 })
              | some false ↦ (
                update_voucher row.id (as_recycled now) db,
                record t { recycled = t.recycled + 1 },
              )
            ])
            db
    go none = refl
    go (some true) = refl
    go (some false) = refl

reclaim_all-records :
    (vault : Vault) (now : ℕ) (rows : List InvitationRow) (s : Db × Tally)
    → SameRecords (reclaim_all vault now rows s) s.0
unfolding reclaim_all
reclaim_all-records vault now [] s = refl
reclaim_all-records vault now (row ∷ rows) s =
    reclaim_all-records vault now rows (reclaim_voucher vault now row s)
    ∙ reclaim_voucher-records vault now row s

settle_pending-records :
    (row : InvitationRow) (now : ℕ) (t : Tally) (s : Db × Settlement)
    → SameRecords (settle_pending row now t s) s.0
unfolding settle_pending record_spend
settle_pending-records row now t (db, settled accepted) = refl
settle_pending-records row now t (db, unsettled true why) = refl
settle_pending-records row now t (db, unsettled false why) = refl
settle_pending-records row now t (db, threw) = refl

lock_voucher-records :
    (row : InvitationRow) (height now : ℕ) (db : Db)
    → records (lock_voucher row height now db) ≡ records db
unfolding record_spend
lock_voucher-records row height now db = elim (Bool-cases (in_state broadcast_unknown row)) [
  | inl e ↦ rw e refl
  | inr e ↦ rw e refl
]

if-records {ℓ} :
    {A : Type ℓ} (db : Db) (b : Bool) (x y : Db × A)
    → SameRecords x db
    → SameRecords y db
    → SameRecords (if b then x else y) db
if-records db true x y h k = h
if-records db false x y h k = k

module _ (w : World) (vault : Vault) where
  advance_status-records :
      (row : InvitationRow) (db : Db) (t : Tally) (known : Bool) (height : Option ℕ)
      → SameRecords (advance_status w row db t known height) db
  unfolding advance_status
  advance_status-records row db t known (some height) = lock_voucher-records row height w.now db
  advance_status-records row db t known none =
      if-records db _ _ (db, some t)
        (settle_pending-records row w.now t _
          ∙ ap kept_of (settle_broadcast-books w.network row.built w.now db))
        refl

  advance_all-records :
      (rows : List InvitationRow) (s : Db × Option Tally)
      → SameRecords (advance_all w vault rows s) s.0
  unfolding advance_all advance_voucher
  advance_all-records [] (db, none) = refl
  advance_all-records (row ∷ rows) (db, none) = refl
  advance_all-records [] (db, some t) = refl
  advance_all-records (row ∷ rows) (db, some t) =
      advance_all-records rows (advance_voucher w vault row db t)
      ∙ go (vault.chain_lock_status row.txid)
    where
      go :
          (o : Option ChainLockStatus)
          → SameRecords
              (elim o as (λ x. Db × Option Tally) [
                | none ↦ (db, some t)
                | some status ↦ advance_status w row db t status.known (locked_height status)
              ])
              db
      go none = refl
      go (some status) = advance_status-records row db t status.known (locked_height status)

settle_voucher-records :
    (c : Coinage) (built : BuiltTx) (now : ℕ) (s : Db × Settlement)
    → SameRecords (settle_voucher c built now s) s.0
unfolding settle_voucher record_spend
settle_voucher-records c built now (db, settled accepted) = refl
settle_voucher-records c built now (db, unsettled true why) = refl
settle_voucher-records c built now (db, unsettled false why) = refl
settle_voucher-records c built now (db, threw) = refl

module _ (cfg : InvitationConfig) (w : World) (vault : Vault) where
  mint_built-records :
      (c : Coinage) (made : Result BuiltTx) (db : Db)
      → SameRecords (mint_built cfg vault c w.now made db) db
  unfolding mint_built
  mint_built-records c (err e) db = refl
  mint_built-records c (ok built) db =
      if-records db _ (db, lost) _ refl
        (settle_voucher-records c built w.now _
          ∙ ap kept_of (settle_broadcast-books c.network built w.now _))

  mint_view-records :
      (key : FaucetKey) (c : Coinage) (s : Db × Option Snapshot)
      → SameRecords (mint_view cfg vault w.lib key c w.now s) s.0
  unfolding mint_view
  mint_view-records key c (db, none) = refl
  mint_view-records key c (db, some view) = mint_built-records c _ db

  mint_invitation-records :
      (key : Option FaucetKey) (c : Coinage) (db : Db)
      → SameRecords (mint_invitation cfg vault w.lib key c w.now db) db
  unfolding mint_invitation
  mint_invitation-records none c db = refl
  mint_invitation-records (some key) c db =
      mint_view-records key c _
      ∙ ap kept_of
          (spendable_utxos-books c.network (w.lib.create_pkh_script key.pub_key_hash) w.now db)

  module _ (coinage : ℕ → Coinage) where
    refill_inventory-records :
        (left n : ℕ) (db : Db)
        → records (refill_inventory cfg w vault coinage left n db).0 ≡ records db
    unfolding refill_inventory
    refill_inventory-records zero n db = refl
    refill_inventory-records (suc left) n db =
        go (mint_invitation cfg vault w.lib w.key (coinage n) w.now db)
          (mint_invitation-records w.key (coinage n) db)
          (λ db'. refill_inventory-records left (n + 1) db')
      where
        go :
            (out : Db × MintResult)
            → SameRecords out db
            → ((db' : Db)
                → records (refill_inventory cfg w vault coinage left (n + 1) db').0 ≡ records db')
            → records (
                (elim (out.1) as (λ x. Db × ℕ × Refill) [
                  | minted ↦ refill_inventory cfg w vault coinage left (n + 1) out.0
                  | refused why ↦ (out.0, n, stopped why)
                  | lost ↦ (out.0, n, broken)
                ]).0)
              ≡ records db
        go (db', minted) same rest = rest db' ∙ same
        go (db', refused why) same rest = same
        go (db', lost) same rest = same

    refill_after-records :
        (s : Db × Option Tally) → SameRecords (refill_after cfg w vault coinage s) s.0
    unfolding refill_after
    refill_after-records (db, none) = refl
    refill_after-records (db, some t) = refill_inventory-records _ 0 db

    pub tend_inventory-records : (db : Db) → SameRecords (tend_inventory cfg w vault coinage db) db
    unfolding tend_inventory
    tend_inventory-records db =
        refill_after-records (advance_from w vault first)
        ∙ (advance_from-records first ∙ reclaim_all-records vault w.now over (db, zero_tally))
      where
        over : List InvitationRow
        over = filter (is_over cfg w.now) db.inventory

        first : Db × Tally
        first = reclaim_all vault w.now over (db, zero_tally)

        advance_from-records : (s : Db × Tally) → SameRecords (advance_from w vault s) s.0
        advance_from-records (db', t) =
            advance_all-records w vault (filter is_pending db'.inventory) (db', some t)
