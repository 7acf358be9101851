-- ===== src/Treasury/Invitations/Recorded/Issued.antt =====
-- What `issueInvitation` of src/treasury.ts leaves on record: its loop changes neither the hits of the
-- rate window nor the spent capTokens.
use dash_faucet_cf.Base.{
  ℕ, zero, suc, ltb, String, ◌+◌, ◌-◌, ◌≡◌, refl, ◌∙◌, ap, Bool, true, false, Option, none, some,
  List, [], ◌∷◌, if◌then◌else◌, length, Bool-cases, inl, inr,
}
use dash_faucet_cf.Config.{InvitationConfig}
use dash_faucet_cf.Db.{Db, InvitationRow, InvitationHit, UsedCap}
use dash_faucet_cf.Treasury.Broadcast.{is_empty}
use dash_faucet_cf.Treasury.Invitations.{Vault}
use dash_faucet_cf.Treasury.Invitations.Issuing.{
  Invitation, open_voucher, Handing, offer_with, offer_voucher, offer_all, candidates, hand_out,
  IssueRequest, IssueResult, conclude_issue, issue_fresh, issue_pruned, prior_vouchers, retry_after,
  wanted, rounds, nothing_yet,
}
use dash_faucet_cf.Treasury.Invitations.Recorded.{SameRecords}

offer_with-records :
    (device : String) (now : ℕ) (row : InvitationRow) (claim : Option Bool)
    (opened : Option Invitation) (s : Db × Handing)
    → SameRecords (offer_with device now row claim opened s) s.0
unfolding offer_with
offer_with-records device now row none opened (db, h) = refl
offer_with-records device now row (some true) opened (db, h) = refl
offer_with-records device now row (some false) none (db, h) = refl
offer_with-records device now row (some false) (some i) (db, h) = refl

module _ (cfg : InvitationConfig) (vault : Vault) (device : String) (now : ℕ) where
  offer_all-records :
      (rows : List InvitationRow) (s : Db × Handing)
      → SameRecords (offer_all cfg vault device now rows s) s.0
  unfolding offer_all offer_voucher
  offer_all-records [] s = refl
  offer_all-records (row ∷ rows) s =
      offer_all-records rows (offer_voucher cfg vault device now row s)
      ∙ offer_with-records device now row (vault.identity_exists row.prospective_identity_id)
          (open_voucher vault row (now + cfg.ttl_ms)) s

  pub hand_out-records :
      (count fuel : ℕ) (s : Db × Handing)
      → SameRecords (hand_out cfg vault device now count fuel s) s.0
  unfolding hand_out
  hand_out-records count zero s = refl
  hand_out-records count (suc fuel) (db, h) = go _ (
      hand_out-records count fuel after
      ∙ offer_all-records (candidates cfg (count - length h.invitations) db) (db, h))
    where
      after : Db × Handing
      after =
          offer_all cfg vault device now (candidates cfg (count - length h.invitations) db) (db, h)

      go :
          (b : Bool)
          → SameRecords (hand_out cfg vault device now count fuel after) db
          → SameRecords
              (elim b as (λ x. Db × Handing) [
                | true ↦ (db, h)
                | false ↦ hand_out cfg vault device now count fuel after
              ])
              db
      go true rest = refl
      go false rest = rest

conclude_issue-used_cap :
    (input : IssueRequest) (now : ℕ) (s : Db × Handing)
    → (conclude_issue input now s).0.used_cap ≡ s.0.used_cap
unfolding conclude_issue
conclude_issue-used_cap input now (db, h) = elim (Bool-cases (is_empty h.invitations)) [
  | inl none_ ↦ rw none_ refl
  | inr some_ ↦ rw some_ refl
]

-- An issue spends no capToken and frees none.
pub issue_pruned-used_cap :
    (cfg : InvitationConfig) (vault : Vault) (input : IssueRequest) (now : ℕ) (db : Db)
    → (issue_pruned cfg vault input now db).0.used_cap ≡ db.used_cap
unfolding issue_pruned issue_fresh
issue_pruned-used_cap cfg vault input now db =
    if-used (ltb 0 cfg.rate_window_ms) _ _
      (if-used (is_empty (prior_vouchers cfg input.device_hash now db)) _ _
        (if-used (ltb 0 (retry_after cfg input now db)) _ _ refl fresh) refl)
      fresh
  where
    if-used :
        (b : Bool) (x y : Db × IssueResult)
        → x.0.used_cap ≡ db.used_cap
        → y.0.used_cap ≡ db.used_cap
        → (if b then x else y).0.used_cap ≡ db.used_cap
    if-used true x y h k = h
    if-used false x y h k = k

    fresh : (issue_fresh cfg vault input now db).0.used_cap ≡ db.used_cap
    fresh =
        conclude_issue-used_cap input now (
          hand_out cfg vault input.device_hash now (wanted cfg input) (rounds db) (db, nothing_yet))
        ∙ ap (λ (r : List InvitationHit × List UsedCap). r.1)
            (hand_out-records cfg vault input.device_hash now (wanted cfg input) (rounds db)
              (db, nothing_yet))
