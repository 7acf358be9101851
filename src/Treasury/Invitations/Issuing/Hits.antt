-- ===== src/Treasury/Invitations/Issuing/Hits.antt =====
-- The hits that `issueInvitation` of src/treasury.ts records for a batch.
use dash_faucet_cf.Base.{
  ℕ, ◌<◌, ◌≡◌, ◌≢◌, refl, sym, ◌∙◌, subst, ap, inl, inr, Bool, true, false, Option, none, some,
  List, [], ◌∷◌, ◌++◌, arith, if◌then◌else◌, ltb, same, Bool-cases,
}
use dash_faucet_cf.Config.{FaucetConfig, InvitationConfig}
use dash_faucet_cf.Db.{Db, InvitationHit, by_ip, by_device}
use dash_faucet_cf.Treasury.Ledger.{prune}
use dash_faucet_cf.Treasury.Broadcast.{is_empty}
use dash_faucet_cf.Treasury.Invitations.{Vault}
use dash_faucet_cf.Treasury.Invitations.Issuing.{
  IssueRequest, Invitation, IssueResult, handed, rate_limited, unavailable, platform_unavailable,
  unopened, Handing, retry_after, hit_of, prior_vouchers, replay_vouchers, open_all, conclude_issue,
  issue_fresh, issue_pruned, issue_invitation,
}

-- An answer that hands out no new voucher: a repetition, an error, or the time to wait.
abbrev pub IsHeldBack : IssueResult → Type 0
IsHeldBack (handed is replay) = replay ≡ true
IsHeldBack (rate_limited seconds) = 0 < seconds
IsHeldBack unavailable = ⊥
IsHeldBack platform_unavailable = ⊥
IsHeldBack unopened = Unit

-- The two hits of a batch are on record.
abbrev pub HasHits : IssueRequest → ℕ → Db → Type 0
HasHits input now db =
    (old : List InvitationHit) × (db.invitation_hits
      ≡ old ++ hit_of by_ip input.ip_hash now ∷ hit_of by_device input.device_hash now ∷ [])

abbrev pub IsFresh : List Invitation → Db × IssueResult → Type 0
IsFresh is s = s.1 ≡ handed is false

pub conclude_issue-HasHits :
    (input : IssueRequest) (now : ℕ) (s : Db × Handing) (is : List Invitation)
    → IsFresh is (conclude_issue input now s)
    → HasHits input now (conclude_issue input now s).0
unfolding conclude_issue
conclude_issue-HasHits input now (db, h) is e = elim (Bool-cases (is_empty h.invitations)) [
  | inl none_ ↦ elim (Bool-cases h.explorer_down) [
    | inl down ↦ absurd (ground arith)
    | inr up ↦ elim (Bool-cases h.decrypt_failed) [
      | inl bad ↦ absurd (ground arith)
      | inr good ↦ absurd (ground arith)
    ]
  ]
  | inr some_ ↦ rw some_ (db.invitation_hits, refl)
]

pub replay-not-fresh : (r : IssueResult) (is : List Invitation) → IsHeldBack r → r ≢ handed is false
replay-not-fresh (handed js replay) is h e = absurd (
    cc (
      ap
        (λ (r : IssueResult). elim r [
          | handed ks again ↦ again
          | rate_limited n ↦ true
          | unavailable ↦ true
          | platform_unavailable ↦ true
          | unopened ↦ true
        ])
        e))
replay-not-fresh (rate_limited seconds) is h e = absurd (cc)
replay-not-fresh unavailable is h e = absurd h
replay-not-fresh platform_unavailable is h e = absurd h
replay-not-fresh unopened is h e = absurd (cc)

pub replay_vouchers-IsHeldBack :
    (cfg : InvitationConfig) (vault : Vault) (rows : List _)
    → IsHeldBack (replay_vouchers cfg vault rows)
unfolding replay_vouchers
replay_vouchers-IsHeldBack cfg vault rows = go (open_all cfg vault rows)
  where
    go :
        (o : Option (List Invitation))
        → IsHeldBack (elim o as (λ x. IssueResult) [ none ↦ unopened | some is ↦ handed is true ])
    go none = tt
    go (some is) = refl

-- An answer that hands out new vouchers comes from the loop.
pub from-if :
    (is : List Invitation) (b : Bool) (x y z : Db × IssueResult)
    → (IsFresh is x → x ≡ z)
    → (IsFresh is y → y ≡ z)
    → IsFresh is (if b then x else y)
    → (if b then x else y) ≡ z
from-if is true x y z f g e = f e
from-if is false x y z f g e = g e

pub issue_pruned-fresh :
    (cfg : InvitationConfig) (vault : Vault) (input : IssueRequest) (now : ℕ) (db : Db)
    (is : List Invitation)
    → IsFresh is (issue_pruned cfg vault input now db)
    → issue_pruned cfg vault input now db ≡ issue_fresh cfg vault input now db
unfolding issue_pruned
issue_pruned-fresh cfg vault input now db is =
    let prior = prior_vouchers cfg input.device_hash now db in
    from-if is (ltb 0 cfg.rate_window_ms) _ _ _
      (from-if is (is_empty prior) _ _ _
        (from-if is (ltb 0 (retry_after cfg input now db)) _ _ _
          (λ (e : rate_limited (retry_after cfg input now db) ≡ handed is false). absurd (cc))
          (λ e. refl))
        (λ (e : replay_vouchers cfg vault prior ≡ handed is false).
          absurd (replay-not-fresh _ is (replay_vouchers-IsHeldBack cfg vault prior) e)))
      (λ e. refl)

pub issue_invitation-on :
    (cfg : FaucetConfig) (vault : Vault) (input : IssueRequest) (now : ℕ) (db : Db)
    → cfg.invitations.enabled ≡ true
    → issue_invitation cfg vault input now db
      ≡ issue_pruned cfg.invitations vault input now (prune cfg now db)
unfolding issue_invitation
issue_invitation-on cfg vault input now db on = rw on refl

pub issue_invitation-fresh :
    (cfg : FaucetConfig) (vault : Vault) (input : IssueRequest) (now : ℕ) (db : Db)
    (is : List Invitation)
    → IsFresh is (issue_invitation cfg vault input now db)
    → (cfg.invitations.enabled ≡ true)
      × (issue_invitation cfg vault input now db
          ≡ issue_fresh cfg.invitations vault input now (prune cfg now db))
unfolding issue_invitation
issue_invitation-fresh cfg vault input now db is e = elim (Bool-cases cfg.invitations.enabled) [
  | inl on ↦
      let same = issue_invitation-on cfg vault input now db on in
      (
        on,
        same
            ∙ issue_pruned-fresh cfg.invitations vault input now (prune cfg now db) is
                (sym (ap (λ (s : Db × IssueResult). s.1) same) ∙ e),
      )
  | inr off ↦ absurd (
      cc (
        ap
          (λ (b : Bool).
            (if b
              then issue_pruned cfg.invitations vault input now (prune cfg now db)
              else (db, unavailable)).1)
          (sym off)
        ∙ e))
]

pub issue_invitation-HasHits :
    (cfg : FaucetConfig) (vault : Vault) (input : IssueRequest) (now : ℕ) (db : Db)
    (is : List Invitation)
    → IsFresh is (issue_invitation cfg vault input now db)
    → HasHits input now (issue_invitation cfg vault input now db).0
unfolding issue_fresh
issue_invitation-HasHits cfg vault input now db is e =
    let (on, same) = issue_invitation-fresh cfg vault input now db is e in
    subst (λ s. HasHits input now s.0) (sym same)
      (conclude_issue-HasHits input now _ is (sym (ap (λ (s : Db × IssueResult). s.1) same) ∙ e))
