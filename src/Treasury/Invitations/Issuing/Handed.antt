-- ===== src/Treasury/Invitations/Issuing/Handed.antt =====
-- The vouchers that `issueInvitation` of src/treasury.ts hands out.
use dash_faucet_cf.Base.{
  ℕ, ◌≤◌, ◌≡◌, sym, ◌∙◌, subst, ap, inl, inr, false, List, [], ◌∷◌, arith, length, All, All-filter,
  Bool-cases, same,
}
use dash_faucet_cf.Config.{FaucetConfig, InvitationConfig}
use dash_faucet_cf.Db.{Db, InvitationRow}
use dash_faucet_cf.Treasury.Ledger.{prune}
use dash_faucet_cf.Treasury.Broadcast.{is_empty}
use dash_faucet_cf.Treasury.Invitations.{Vault}
use dash_faucet_cf.Treasury.Invitations.Rows.{HasUniqueIds, IsRowOf, All-IsRowOf}
use dash_faucet_cf.Treasury.Invitations.Issuing.{
  IssueRequest, Invitation, IssueResult, handed, rate_limited, unavailable, platform_unavailable,
  unopened, Handing, is_ready, rounds, nothing_yet, wanted, conclude_issue, issue_fresh,
  issue_invitation,
}
use dash_faucet_cf.Treasury.Invitations.Issuing.Hits.{issue_invitation-fresh}
use dash_faucet_cf.Treasury.Invitations.Issuing.Looped.{
  IsSound, IsHandedOut, hand_out-IsSound, hand_out-length,
}

-- A batch: vouchers of the table, no more than are wanted, and at least one.
abbrev pub IsBatch :
    InvitationConfig
    → Vault
    → IssueRequest
    → ℕ
    → List InvitationRow
    → List InvitationRow
    → List Invitation
    → Type 0
IsBatch cfg vault input now before after is =
    All (IsHandedOut cfg vault input.device_hash now (IsRowOf before) after) is
    × (length is ≤ wanted cfg input)
    × (1 ≤ length is)

abbrev the_vouchers : IssueResult → List Invitation
the_vouchers (handed is replay) = is
the_vouchers (rate_limited n) = []
the_vouchers unavailable = []
the_vouchers platform_unavailable = []
the_vouchers unopened = []

some-length : (is : List Invitation) → is_empty is ≡ false → 1 ≤ length is
some-length [] h = absurd (cc)
some-length (i ∷ is) h = omega arith

conclude_issue-IsBatch :
    (cfg : InvitationConfig) (vault : Vault) (input : IssueRequest) (now : ℕ)
    (before : List InvitationRow) (s : Db × Handing) (is : List Invitation)
    → IsSound cfg vault input.device_hash now (IsRowOf before) s
    → length s.1.invitations ≤ wanted cfg input
    → (conclude_issue input now s).1 ≡ handed is false
    → IsBatch cfg vault input now before (conclude_issue input now s).0.inventory is
unfolding conclude_issue
conclude_issue-IsBatch cfg vault input now before (db, h) is g few e =
    elim (Bool-cases (is_empty h.invitations)) [
      | inl none_ ↦ elim (Bool-cases h.explorer_down) [
        | inl down ↦ absurd (ground arith)
        | inr up ↦ elim (Bool-cases h.decrypt_failed) [
          | inl bad ↦ absurd (ground arith)
          | inr good ↦ absurd (ground arith)
        ]
      ]
      | inr some_ ↦ rw some_ (
          subst (λ js. IsBatch cfg vault input now before db.inventory js)
            (ap the_vouchers (rw some_ at e)) (g.out, few, some-length h.invitations some_))
    ]

-- Where the vouchers have unique ids, a batch that is newly handed out has at least one voucher
-- and no more than are wanted; each opens a row of the inventory that was available at the
-- configured amount and whose identity Platform does not know, and after the call that row is
-- issued to the device, since now.
pub issue_invitation-IsBatch :
    (cfg : FaucetConfig) (vault : Vault) (input : IssueRequest) (now : ℕ) (db : Db)
    (is : List Invitation)
    → HasUniqueIds db.inventory
    → (issue_invitation cfg vault input now db).1 ≡ handed is false
    → IsBatch cfg.invitations vault input now db.inventory
        (issue_invitation cfg vault input now db).0.inventory
        is
unfolding issue_fresh prune
issue_invitation-IsBatch cfg vault input now db is u e =
    let (on, same) = issue_invitation-fresh cfg vault input now db is e in
    let start : Db = prune cfg now db in
    let rows = All-IsRowOf db.inventory in
    let sound =
      hand_out-IsSound cfg.invitations vault input.device_hash now (IsRowOf db.inventory)
        (wanted cfg.invitations input) (rounds start) start nothing_yet u
        record {
          out = tt;
          ready = All-filter (IsRowOf db.inventory) (is_ready cfg.invitations) db.inventory rows;
        } in
    subst
      (λ (s : Db × IssueResult).
        IsBatch cfg.invitations vault input now db.inventory s.0.inventory is)
      (sym same)
      (conclude_issue-IsBatch cfg.invitations vault input now db.inventory _ is sound
        (hand_out-length cfg.invitations vault input.device_hash now (IsRowOf db.inventory)
          (wanted cfg.invitations input) (rounds start) start nothing_yet (omega arith))
        (sym (ap (λ (s : Db × IssueResult). s.1) same) ∙ e))
