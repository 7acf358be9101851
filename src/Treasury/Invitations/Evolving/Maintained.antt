-- ===== src/Treasury/Invitations/Evolving/Maintained.antt =====
-- `maintainInvitations` of src/treasury.ts moves vouchers along their lives, and mints new ones.
use dash_faucet_cf.Base.{
  ℕ, zero, suc, ◌+◌, ◌≡◌, refl, subst, ap, inl, inr, String, Bool, true, ◌&&◌, not, Option, none,
  some, List, [], ◌∷◌, arith, filter, All, All-of_filter, Bool-cases,
}
use dash_faucet_cf.Config.{FaucetConfig, InvitationConfig}
use dash_faucet_cf.Db.{Db, InvitationRow, broadcast_unknown, awaiting_chainlock, issued}
use dash_faucet_cf.Db.Sql.{update_where, count_where}
use dash_faucet_cf.Chain.{ChainLockStatus}
use dash_faucet_cf.Treasury.{World}
use dash_faucet_cf.Treasury.Books.{settle_broadcast-books}
use dash_faucet_cf.Treasury.Ledger.{prune}
use dash_faucet_cf.Treasury.Broadcast.{settle_broadcast}
use dash_faucet_cf.Treasury.Invitations.{
  Vault, in_state, has_no_amount, amount_of, has_voucher_id, as_locked, backfill_invitation_amounts,
}
use dash_faucet_cf.Treasury.Invitations.Rows.{HasUniqueIds, IsRead, selected-IsRead}
use dash_faucet_cf.Treasury.Invitations.Lifecycle.{here, Follows, is_state→path, touch-Evolves}
use dash_faucet_cf.Treasury.Invitations.Minting.{
  Coinage, MintResult, minted, refused, lost, mint_invitation,
}
use dash_faucet_cf.Treasury.Invitations.Tending.{
  Tally, reclaim_all, is_over, settle_pending, locked_height, advance_status, advance_voucher,
  advance_all, is_pending, Refill, stopped, broken, refill_inventory, refill_after, zero_tally,
  advance_from, tend_inventory, maintain_invitations,
}
use dash_faucet_cf.Treasury.Invitations.Evolving.{
  IsSuccessor, IsSuccessor-refl, IsSuccessor-trans, Touches, touch-IsRead, Leads, if-Leads,
}
use dash_faucet_cf.Treasury.Invitations.Evolving.Minted.{mint_invitation-Leads}
use dash_faucet_cf.Treasury.Invitations.Evolving.Reclaimed.{
  reclaim_all-Leads, settle_pending-Touches, IsPending, lock-Follows, inventory_of,
  lock_voucher-inventory,
}

module _ (w : World) (vault : Vault) where
  settle_row-Touches :
      (row : InvitationRow) (t : Tally) (db : Db)
      → row.state ≡ broadcast_unknown
      → Touches row db.inventory
          (settle_pending row w.now t (settle_broadcast w.network row.built w.now db)).0.inventory
  settle_row-Touches row t db at =
      subst
        (λ inv.
          Touches row inv
            (settle_pending row w.now t
              (settle_broadcast w.network row.built w.now db)).0.inventory)
        (ap inventory_of (settle_broadcast-books w.network row.built w.now db))
        (settle_pending-Touches row w.now t (settle_broadcast w.network row.built w.now db) at)

  advance_status-Touches :
      (row : InvitationRow) (db : Db) (t : Tally) (known : Bool) (height : Option ℕ)
      → IsPending row
      → Touches row db.inventory (advance_status w row db t known height).0.inventory
  unfolding advance_status
  advance_status-Touches row db t known (some height) at = inr (
    as_locked height w.now,
    λ x. refl,
    lock-Follows row height w.now at,
    lock_voucher-inventory row height w.now db,
  )
  advance_status-Touches row db t known none at =
      elim (Bool-cases (in_state broadcast_unknown row && not known)) [
        | inl yes_ ↦
            rw yes_ (
              settle_row-Touches row t db
                (is_state→path broadcast_unknown row.state (ground arith)))
        | inr no_ ↦ rw no_ (inl refl)
      ]

  advance_voucher-Touches :
      (row : InvitationRow) (db : Db) (t : Tally)
      → IsPending row
      → Touches row db.inventory (advance_voucher w vault row db t).0.inventory
  unfolding advance_voucher
  advance_voucher-Touches row db t at = go (vault.chain_lock_status row.txid)
    where
      go :
          (answer : Option ChainLockStatus)
          → Touches row db.inventory
              (elim answer as (λ x. Db × Option Tally) [
                | none ↦ (db, some t)
                | some status ↦ advance_status w row db t status.known (locked_height status)
              ]).0.inventory
      go none = inl refl
      go (some status) = advance_status-Touches row db t status.known (locked_height status) at

  advance_all-Leads :
      (rows : List InvitationRow) (s : Db × Option Tally)
      → All IsPending rows
      → IsRead s.0.inventory rows
      → Leads s.0.inventory (advance_all w vault rows s)
  unfolding advance_all
  advance_all-Leads rows (db, none) a h = IsSuccessor-refl db.inventory h.unique
  advance_all-Leads [] (db, some t) a h = IsSuccessor-refl db.inventory h.unique
  advance_all-Leads (row ∷ rows) (db, some t) (at, a) h =
      let (evolves, read) =
        touch-IsRead row db.inventory _ rows (advance_voucher-Touches row db t at) h in
      IsSuccessor-trans _ _ _ evolves
        (advance_all-Leads rows (advance_voucher w vault row db t) a read)

  is_pending-IsPending : (row : InvitationRow) → is_pending row ≡ true → IsPending row
  is_pending-IsPending row h = elim (Bool-cases (in_state broadcast_unknown row)) [
    | inl e ↦ inl (is_state→path broadcast_unknown row.state e)
    | inr e ↦ inr (is_state→path awaiting_chainlock row.state (ground arith))
  ]

  advance_from-Leads :
      (s : Db × Tally) → HasUniqueIds s.0.inventory → Leads s.0.inventory (advance_from w vault s)
  advance_from-Leads (db, t) u =
      advance_all-Leads (filter is_pending db.inventory) (db, some t)
        (All-of_filter IsPending is_pending is_pending-IsPending db.inventory)
        (selected-IsRead is_pending db.inventory u)

  module _ (cfg : InvitationConfig) (coinage : ℕ → Coinage) where
    refill_inventory-Leads :
        (left n : ℕ) (db : Db)
        → HasUniqueIds db.inventory
        → IsSuccessor db.inventory (refill_inventory cfg w vault coinage left n db).0.inventory
    unfolding refill_inventory
    refill_inventory-Leads zero n db u = IsSuccessor-refl db.inventory u
    refill_inventory-Leads (suc left) n db u =
        let made = mint_invitation-Leads cfg vault (coinage n) w.now w.lib w.key db u in
        IsSuccessor-trans _ _ _ made.evolves (
          go (mint_invitation cfg vault w.lib w.key (coinage n) w.now db).1 made.unique
            (refill_inventory-Leads left (n + 1) after made.unique))
      where
        after : Db
        after = (mint_invitation cfg vault w.lib w.key (coinage n) w.now db).0

        go :
            (result : MintResult)
            → HasUniqueIds after.inventory
            → IsSuccessor after.inventory
                (refill_inventory cfg w vault coinage left (n + 1) after).0.inventory
            → IsSuccessor after.inventory
                (elim result as (λ x. Db × ℕ × Refill) [
                  | minted ↦ refill_inventory cfg w vault coinage left (n + 1) after
                  | refused why ↦ (after, n, stopped why)
                  | lost ↦ (after, n, broken)
                ]).0.inventory
        go minted v rest = rest
        go (refused why) v rest = IsSuccessor-refl after.inventory v
        go lost v rest = IsSuccessor-refl after.inventory v

    refill_after-Leads :
        (s : Db × Option Tally)
        → HasUniqueIds s.0.inventory
        → Leads s.0.inventory (refill_after cfg w vault coinage s)
    unfolding refill_after
    refill_after-Leads (db, none) u = IsSuccessor-refl db.inventory u
    refill_after-Leads (db, some t) u = refill_inventory-Leads _ 0 db u

    over-issued : (row : InvitationRow) → is_over cfg w.now row ≡ true → row.state ≡ issued
    over-issued row h = is_state→path issued row.state (ground arith)

    tend_inventory-Leads :
        (db : Db)
        → HasUniqueIds db.inventory
        → Leads db.inventory (tend_inventory cfg w vault coinage db)
    unfolding tend_inventory
    tend_inventory-Leads db u =
        let over = filter (is_over cfg w.now) db.inventory in
        let first =
          reclaim_all-Leads vault w.now over (db, zero_tally)
            (All-of_filter (λ r. r.state ≡ issued) (is_over cfg w.now) over-issued db.inventory)
            (selected-IsRead (is_over cfg w.now) db.inventory u) in
        let second =
          advance_from-Leads (reclaim_all vault w.now over (db, zero_tally)) first.unique in
        IsSuccessor-trans _ _ _ first.evolves
          (IsSuccessor-trans _ _ _ second.evolves (refill_after-Leads _ second.unique))

filled-Follows : (x : InvitationRow) → Follows x (record x { amount_sats = amount_of x.built })
filled-Follows x = record {
  same_id = refl;
  same_txid = refl;
  lives = here;
  kept = inl (refl, refl);
}

count-filled :
    (id : String) (xs : List InvitationRow)
    → count_where
        (has_voucher_id id)
        (update_where has_no_amount (λ x. record x { amount_sats = amount_of x.built }) xs)
      ≡ count_where (has_voucher_id id) xs
count-filled id [] = refl
count-filled id (x ∷ xs) = elim (Bool-cases (has_no_amount x)) [
  | inl e ↦ rw e (ground (arith, count-filled id xs))
  | inr e ↦ rw e (ground (arith, count-filled id xs))
]

filled-HasUniqueIds :
    (xs : List InvitationRow)
    → HasUniqueIds xs
    → HasUniqueIds
        (update_where has_no_amount (λ x. record x { amount_sats = amount_of x.built }) xs)
filled-HasUniqueIds xs u id = omega (arith, u id, count-filled id xs)

backfill-IsSuccessor :
    (db : Db)
    → HasUniqueIds db.inventory
    → IsSuccessor db.inventory (backfill_invitation_amounts db).inventory
unfolding backfill_invitation_amounts
backfill-IsSuccessor db u = record {
  evolves = touch-Evolves has_no_amount _ filled-Follows db.inventory;
  unique = filled-HasUniqueIds db.inventory u;
}

pub maintain_invitations-Leads :
    (cfg : FaucetConfig) (w : World) (vault : Vault) (coinage : ℕ → Coinage) (db : Db)
    → HasUniqueIds db.inventory
    → Leads db.inventory (maintain_invitations cfg w vault coinage db)
unfolding maintain_invitations prune
maintain_invitations-Leads cfg w vault coinage db u =
    let filled = backfill-IsSuccessor (prune cfg w.now db) u in
    let same = IsSuccessor-refl db.inventory u in
    if-Leads db.inventory cfg.invitations.enabled _ _
      (if-Leads db.inventory cfg.dry_run _ _ same (
        IsSuccessor-trans _ _ _ filled.evolves
          (tend_inventory-Leads w vault cfg.invitations coinage _ filled.unique)))
      same
