-- ===== src/Treasury/Invitations/Evolving/Reclaimed.antt =====
-- Vouchers that `maintainInvitations` of src/treasury.ts reclaims, and those that still pend.
use dash_faucet_cf.Base.{
  ℕ, ◌+◌, ◌≡◌, refl, ◌∙◌, inl, inr, Bool, true, false, Option, none, some, List, [], ◌∷◌, All,
  Bool-cases, ◌⊎◌,
}
use dash_faucet_cf.Db.{Db, InvitationRow, broadcast_unknown, awaiting_chainlock, issued}
use dash_faucet_cf.Db.Sql.{update_where}
use dash_faucet_cf.Treasury.Books.{Books}
use dash_faucet_cf.Treasury.Ledger.{record_spend}
use dash_faucet_cf.Treasury.Broadcast.{Settlement, settled, unsettled, threw}
use dash_faucet_cf.Treasury.Invitations.{
  Vault, in_state, has_voucher_id, update_voucher, as_claimed, as_recycled, as_locked, as_awaiting,
  as_rejected,
}
use dash_faucet_cf.Treasury.Invitations.Rows.{IsRead}
use dash_faucet_cf.Treasury.Invitations.Lifecycle.{
  relayed, locked_unseen, rejected, locked, claimed_late, recycled, Follows,
}
use dash_faucet_cf.Treasury.Invitations.Tending.{
  Tally, reclaim_voucher, reclaim_all, settle_pending, lock_voucher,
}
use dash_faucet_cf.Treasury.Invitations.Evolving.{
  IsSuccessor-refl, IsSuccessor-trans, Touches, touch-IsRead, Leads, Step-Follows,
}

pub reclaim_voucher-Touches :
    (vault : Vault) (now : ℕ) (row : InvitationRow) (s : Db × Tally)
    → row.state ≡ issued
    → Touches row s.0.inventory (reclaim_voucher vault now row s).0.inventory
unfolding reclaim_voucher
reclaim_voucher-Touches vault now row (db, t) at =
    go (vault.identity_exists row.prospective_identity_id)
  where
    go :
        (claim : Option Bool)
        → Touches row db.inventory
            (elim claim as (λ x. Db × Tally) [
              | none ↦ (db, t)
              | some true ↦
                  (update_voucher row.id (as_claimed now) db, record t { claimed = t.claimed + 1 })
              | some false ↦ (
                update_voucher row.id (as_recycled now) db,
                record t { recycled = t.recycled + 1 },
              )
            ]).0.inventory
    go none = inl refl
    go (some true) = inr (
      as_claimed now,
      λ x. refl,
      λ x e.
          Step-Follows x (as_claimed now x) refl refl (inr (inl refl)) issued (e ∙ at) claimed_late,
      refl,
    )
    go (some false) = inr (
      as_recycled now,
      λ x. refl,
      λ x e.
          Step-Follows x (as_recycled now x) refl refl (inl (refl, refl)) issued (e ∙ at) recycled,
      refl,
    )

pub reclaim_all-Leads :
    (vault : Vault) (now : ℕ) (rows : List InvitationRow) (s : Db × Tally)
    → All (λ r. r.state ≡ issued) rows
    → IsRead s.0.inventory rows
    → Leads s.0.inventory (reclaim_all vault now rows s)
unfolding reclaim_all
reclaim_all-Leads vault now [] s a h = IsSuccessor-refl s.0.inventory h.unique
reclaim_all-Leads vault now (row ∷ rows) s (at, a) h =
    let (evolves, read) =
      touch-IsRead row s.0.inventory _ rows (reclaim_voucher-Touches vault now row s at) h in
    IsSuccessor-trans _ _ _ evolves
      (reclaim_all-Leads vault now rows (reclaim_voucher vault now row s) a read)

pub settle_pending-Touches :
    (row : InvitationRow) (now : ℕ) (t : Tally) (s : Db × Settlement)
    → row.state ≡ broadcast_unknown
    → Touches row s.0.inventory (settle_pending row now t s).0.inventory
unfolding settle_pending record_spend
settle_pending-Touches row now t (db, settled accepted) at = inr (
  as_awaiting now,
  λ x. refl,
  λ x e.
      Step-Follows x (as_awaiting now x) refl refl (inl (refl, refl)) broadcast_unknown (e ∙ at)
        relayed,
  refl,
)
settle_pending-Touches row now t (db, unsettled true why) at = inl refl
settle_pending-Touches row now t (db, unsettled false why) at = inr (
  as_rejected now,
  λ x. refl,
  λ x e.
      Step-Follows x (as_rejected now x) refl refl (inr (inr refl)) broadcast_unknown (e ∙ at)
        rejected,
  refl,
)
settle_pending-Touches row now t (db, threw) at = inl refl

-- The states of the rows of the second loop.
abbrev pub IsPending : InvitationRow → Type 0
IsPending r = (r.state ≡ broadcast_unknown) ⊎ (r.state ≡ awaiting_chainlock)

pub lock-Follows :
    (row : InvitationRow) (height now : ℕ)
    → IsPending row
    → (x : InvitationRow) → x.state ≡ row.state
    → Follows x (as_locked height now x)
lock-Follows row height now (inl at) x e =
    Step-Follows x (as_locked height now x) refl refl (inl (refl, refl)) broadcast_unknown (e ∙ at)
      locked_unseen
lock-Follows row height now (inr at) x e =
    Step-Follows x (as_locked height now x) refl refl (inl (refl, refl)) awaiting_chainlock (e ∙ at)
      locked

abbrev pub inventory_of : Books → List InvitationRow
inventory_of b = b.inventory

pub lock_voucher-inventory :
    (row : InvitationRow) (height now : ℕ) (db : Db)
    → (lock_voucher row height now db).inventory
      ≡ update_where (has_voucher_id row.id) (as_locked height now) db.inventory
unfolding record_spend
lock_voucher-inventory row height now db = elim (Bool-cases (in_state broadcast_unknown row)) [
  | inl e ↦ rw e refl
  | inr e ↦ rw e refl
]
