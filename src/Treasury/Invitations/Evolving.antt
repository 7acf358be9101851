-- ===== src/Treasury/Invitations/Evolving.antt =====
-- Every handler of src/treasury.ts that touches the inventory moves its vouchers along their lives.
pub mod Minted
pub mod Reclaimed
pub mod Maintained
use dash_faucet_cf.Base.{
  ℕ, zero, suc, ◌+◌, ◌-◌, ◌≡◌, refl, sym, ◌∙◌, subst, ◌⊎◌, inl, inr, String, Bool, true, false,
  Option, none, some, List, [], ◌∷◌, arith, if◌then◌else◌, length, ltb, All, All-of_filter,
}
use dash_faucet_cf.Config.{FaucetConfig, InvitationConfig}
use dash_faucet_cf.Db.{Db, InvitationRow, VoucherState, available}
use dash_faucet_cf.Db.Sql.{update_where}
use dash_faucet_cf.Treasury.Broadcast.{is_empty}
use dash_faucet_cf.Treasury.Ledger.{prune}
use dash_faucet_cf.Treasury.Invitations.{
  Vault, has_voucher_id, as_claimed, as_unreadable, as_issued,
}
use dash_faucet_cf.Db.Selecting.{All-sort, All-take}
use dash_faucet_cf.Treasury.Invitations.Rows.{
  HasUniqueIds, IsRead, KeepsId, selected-IsRead, limited-IsRead, update-IsRead, skip-IsRead,
}
use dash_faucet_cf.Treasury.Invitations.Lifecycle.{
  Step, handed, claimed_first, unreadable, Lives, here, next, IsOver, is_state→path, Follows,
  Evolves, Evolves-refl, Evolves-trans, update-Evolves,
}
use dash_faucet_cf.Treasury.Invitations.Issuing.{
  IssueRequest, Invitation, open_voucher, Handing, offer_with, offer_voucher, offer_all, is_ready,
  candidates, hand_out, conclude_issue, issue_fresh, issue_pruned, issue_invitation, prior_vouchers,
  retry_after, wanted, rounds, nothing_yet,
}

-- An inventory with unique ids that has evolved from `rows`.
pub record IsSuccessor (rows table : List InvitationRow) : Type 0 where
  pub evolves : Evolves rows table
  pub unique : HasUniqueIds table

pub IsSuccessor-refl : (rows : List InvitationRow) → HasUniqueIds rows → IsSuccessor rows rows
IsSuccessor-refl rows u = record { evolves = Evolves-refl rows; unique = u }

pub IsSuccessor-trans :
    (xs ys zs : List InvitationRow) → Evolves xs ys → IsSuccessor ys zs → IsSuccessor xs zs
IsSuccessor-trans xs ys zs d h = record {
  evolves = Evolves-trans xs ys zs d h.evolves;
  unique = h.unique;
}

-- One round of a loop over rows that were read: the table stays, or the first of them takes a step.
abbrev pub Touches : InvitationRow → List InvitationRow → List InvitationRow → Type 0
Touches r table after =
    (after ≡ table)
    ⊎ ((f : InvitationRow → InvitationRow) × KeepsId f
        × ((x : InvitationRow) → x.state ≡ r.state → Follows x (f x))
        × (after ≡ update_where (has_voucher_id r.id) f table))

pub touch-IsRead :
    (r : InvitationRow) (table after rs : List InvitationRow)
    → Touches r table after
    → IsRead table (r ∷ rs)
    → Evolves table after × IsRead after rs
touch-IsRead r table after rs (inl same) h =
    subst (λ t. Evolves table t × IsRead t rs) (sym same)
      (Evolves-refl table, skip-IsRead r table rs h)
touch-IsRead r table after rs (inr (f, keeps, step, e)) h =
    subst (λ t. Evolves table t × IsRead t rs) (sym e)
      (update-Evolves r.id r.state f step table (h.standing).0, update-IsRead r f table rs keeps h)

-- A step of a row, where its fields but the state stay.
pub Step-Follows :
    (x y : InvitationRow)
    → y.id ≡ x.id
    → y.txid ≡ x.txid
    → ((y.cipher_hex ≡ x.cipher_hex) × (y.iv_hex ≡ x.iv_hex)) ⊎ IsOver y.state
    → (s : VoucherState) → x.state ≡ s
    → Step s y.state
    → Follows x y
Step-Follows x y id txid kept s at e = record {
  same_id = id;
  same_txid = txid;
  lives = subst (λ t. Lives t y.state) (sym at) (next here e);
  kept = kept;
}

offer_with-Touches :
    (device : String) (now : ℕ) (row : InvitationRow) (claim : Option Bool)
    (opened : Option Invitation) (s : Db × Handing)
    → row.state ≡ available
    → Touches row s.0.inventory (offer_with device now row claim opened s).0.inventory
unfolding offer_with
offer_with-Touches device now row none opened (db, h) ready = inl refl
offer_with-Touches device now row (some true) opened (db, h) ready = inr (
  as_claimed now,
  λ x. refl,
  λ x at.
      Step-Follows x (as_claimed now x) refl refl (inr (inl refl)) available (at ∙ ready)
        claimed_first,
  refl,
)
offer_with-Touches device now row (some false) none (db, h) ready = inr (
  as_unreadable now,
  λ x. refl,
  λ x at.
      Step-Follows x (as_unreadable now x) refl refl (inl (refl, refl)) available (at ∙ ready)
        unreadable,
  refl,
)
offer_with-Touches device now row (some false) (some i) (db, h) ready = inr (
  as_issued device now,
  λ x. refl,
  λ x at.
      Step-Follows x (as_issued device now x) refl refl (inl (refl, refl)) available (at ∙ ready)
        handed,
  refl,
)

module _ (cfg : InvitationConfig) (vault : Vault) (device : String) (now : ℕ) where
  pub offer_voucher-Touches :
      (row : InvitationRow) (s : Db × Handing)
      → row.state ≡ available
      → Touches row s.0.inventory (offer_voucher cfg vault device now row s).0.inventory
  unfolding offer_voucher
  offer_voucher-Touches row s ready =
      offer_with-Touches device now row (vault.identity_exists row.prospective_identity_id)
        (open_voucher vault row (now + cfg.ttl_ms)) s ready

  offer_all-IsSuccessor :
      (rows : List InvitationRow) (s : Db × Handing)
      → All (λ r. r.state ≡ available) rows
      → IsRead s.0.inventory rows
      → IsSuccessor s.0.inventory (offer_all cfg vault device now rows s).0.inventory
  unfolding offer_all
  offer_all-IsSuccessor [] s a h = IsSuccessor-refl s.0.inventory h.unique
  offer_all-IsSuccessor (row ∷ rows) s (ready, a) h =
      let (evolves, read) =
        touch-IsRead row s.0.inventory _ rows (offer_voucher-Touches row s ready) h in
      IsSuccessor-trans _ _ _ evolves
        (offer_all-IsSuccessor rows (offer_voucher cfg vault device now row s) a read)

  pub ready-available : (row : InvitationRow) → is_ready cfg row ≡ true → row.state ≡ available
  ready-available row h = is_state→path available row.state (ground arith)

  pub candidates-IsRead :
      (limit : ℕ) (db : Db)
      → HasUniqueIds db.inventory
      → All (λ r. r.state ≡ available) (candidates cfg limit db)
        × IsRead db.inventory (candidates cfg limit db)
  candidates-IsRead limit db u = (
    All-take (λ r. r.state ≡ available) limit _
        (All-sort (λ r. r.state ≡ available) _ _
          (All-of_filter (λ r. r.state ≡ available) (is_ready cfg) ready-available db.inventory)),
    limited-IsRead limit _ db.inventory _ (selected-IsRead (is_ready cfg) db.inventory u),
  )

  pub candidates-IsSuccessor :
      (limit : ℕ) (db : Db) (h : Handing)
      → HasUniqueIds db.inventory
      → IsSuccessor db.inventory
          (offer_all cfg vault device now (candidates cfg limit db) (db, h)).0.inventory
  candidates-IsSuccessor limit db h u =
      let (ready, read) = candidates-IsRead limit db u in
      offer_all-IsSuccessor (candidates cfg limit db) (db, h) ready read

  hand_out-IsSuccessor :
      (count fuel : ℕ) (db : Db) (h : Handing)
      → HasUniqueIds db.inventory
      → IsSuccessor db.inventory (hand_out cfg vault device now count fuel (db, h)).0.inventory
  unfolding hand_out
  hand_out-IsSuccessor count zero db h u = IsSuccessor-refl db.inventory u
  hand_out-IsSuccessor count (suc fuel) db h u = go _ (
      IsSuccessor-trans _ _ _ offered.evolves
        (hand_out-IsSuccessor count fuel after.0 after.1 offered.unique))
    where
      limit : ℕ
      limit = count - length h.invitations

      after : Db × Handing
      after = offer_all cfg vault device now (candidates cfg limit db) (db, h)

      offered : IsSuccessor db.inventory after.0.inventory
      offered = candidates-IsSuccessor limit db h u

      go :
          (b : Bool)
          → IsSuccessor db.inventory (hand_out cfg vault device now count fuel after).0.inventory
          → IsSuccessor db.inventory
              (elim b as (λ x. Db × Handing) [
                | true ↦ (db, h)
                | false ↦ hand_out cfg vault device now count fuel after
              ]).0.inventory
      go true rest = IsSuccessor-refl db.inventory u
      go false rest = rest

conclude_issue-inventory :
    (input : IssueRequest) (now : ℕ) (s : Db × Handing)
    → (conclude_issue input now s).0.inventory ≡ s.0.inventory
unfolding conclude_issue
conclude_issue-inventory input now (db, h) = ground arith

-- The inventory after a handler.
abbrev pub Leads {ℓ} : {A : Type ℓ} → List InvitationRow → Db × A → Type 0
Leads rows s = IsSuccessor rows s.0.inventory

pub if-Leads {ℓ} :
    {A : Type ℓ} (rows : List InvitationRow) (b : Bool) (x y : Db × A)
    → Leads rows x
    → Leads rows y
    → Leads rows (if b then x else y)
if-Leads rows true x y h k = h
if-Leads rows false x y h k = k

module _ (cfg : InvitationConfig) (vault : Vault) (input : IssueRequest) (now : ℕ) (db : Db)
    (u : HasUniqueIds db.inventory) where
  issue_fresh-Leads : Leads db.inventory (issue_fresh cfg vault input now db)
  unfolding issue_fresh
  issue_fresh-Leads =
      subst (IsSuccessor db.inventory)
        (sym (
          conclude_issue-inventory input now (
            hand_out cfg vault input.device_hash now (wanted cfg input) (rounds db)
              (db, nothing_yet))))
        (hand_out-IsSuccessor cfg vault input.device_hash now (wanted cfg input) (rounds db) db
          nothing_yet u)

  issue_pruned-Leads : Leads db.inventory (issue_pruned cfg vault input now db)
  unfolding issue_pruned
  issue_pruned-Leads =
      let same = IsSuccessor-refl db.inventory u in
      if-Leads db.inventory (ltb 0 cfg.rate_window_ms) _ _
        (if-Leads db.inventory (is_empty (prior_vouchers cfg input.device_hash now db)) _ _
          (if-Leads db.inventory (ltb 0 (retry_after cfg input now db)) _ _ same issue_fresh-Leads)
          same)
        issue_fresh-Leads

pub issue_invitation-Leads :
    (cfg : FaucetConfig) (vault : Vault) (input : IssueRequest) (now : ℕ) (db : Db)
    → HasUniqueIds db.inventory
    → Leads db.inventory (issue_invitation cfg vault input now db)
unfolding issue_invitation prune
issue_invitation-Leads cfg vault input now db u =
    if-Leads db.inventory cfg.invitations.enabled _ _
      (issue_pruned-Leads cfg.invitations vault input now (prune cfg now db) u)
      (IsSuccessor-refl db.inventory u)
