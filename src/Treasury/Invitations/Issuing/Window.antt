-- ===== src/Treasury/Invitations/Issuing/Window.antt =====
-- The rate window of `issueInvitation` in src/treasury.ts: after vouchers were handed out, neither the
-- device nor the IP gets new ones before it is over.
use dash_faucet_cf.Base.{
  ℕ, ◌+◌, ◌≤◌, ◌<◌, ◌≡◌, refl, sym, subst, ◌⊎◌, inl, inr, String, Bool, true, false, List, [], ◌∷◌,
  ◌++◌, arith, filter, any, same, same_refl, Bool-cases, lt→ltb, All,
}
use dash_faucet_cf.Config.{FaucetConfig, InvitationConfig}
use dash_faucet_cf.Db.{Db, InvitationHit, HitKind, by_ip, by_device}
use dash_faucet_cf.Treasury.Ledger.{prune}
use dash_faucet_cf.Treasury.Broadcast.{is_empty}
use dash_faucet_cf.Treasury.Invitations.{Vault}
use dash_faucet_cf.Treasury.Invitations.Ending.{Call, perform_all}
use dash_faucet_cf.Treasury.Invitations.Remembered.{
  IsWithin, counts, OnRecord, prune-OnRecord, perform_all-OnRecord,
}
use dash_faucet_cf.Treasury.Invitations.Issuing.{
  IssueRequest, Invitation, IssueResult, handed, wait_of, retry_after, hit_of, prior_vouchers,
  issue_pruned, issue_invitation,
}
use dash_faucet_cf.Treasury.Invitations.Issuing.Hits.{
  IsHeldBack, HasHits, replay_vouchers-IsHeldBack, issue_invitation-on, issue_invitation-fresh,
  issue_invitation-HasHits,
}

any-nonempty :
    (p : InvitationHit → Bool) (xs : List InvitationHit)
    → any p xs ≡ true
    → is_empty (filter p xs) ≡ false
any-nonempty p [] h = absurd (cc)
any-nonempty p (x ∷ xs) h = elim (Bool-cases (p x)) [
  | inl e ↦ rw e refl
  | inr e ↦ rw e (any-nonempty p xs (ground arith))
]

any-later :
    (p : InvitationHit → Bool) (xs ys : List InvitationHit)
    → any p ys ≡ true
    → any p (xs ++ ys) ≡ true
any-later p [] ys h = h
any-later p (x ∷ xs) ys h = ground (arith, any-later p xs ys)

-- The two hits of a batch.
abbrev batch_hits : IssueRequest → ℕ → List InvitationHit
batch_hits input now = hit_of by_ip input.ip_hash now ∷ hit_of by_device input.device_hash now ∷ []

-- Either of the two hits of a batch is on record until its window is over.
batch-OnRecord :
    (window : ℕ) (input : IssueRequest) (now later : ℕ) (kind : HitKind) (value : String) (db : Db)
    → HasHits input now db
    → any (counts window later kind value) (batch_hits input now) ≡ true
    → OnRecord window later kind value db.invitation_hits
batch-OnRecord window input now later kind value db (old, hits) counted =
    subst (OnRecord window later kind value) (sym hits)
      (any-later (counts window later kind value) old (batch_hits input now) counted)

-- A hit that counts asks for a wait.
counted-waits :
    (cfg : InvitationConfig) (kind : HitKind) (value : String) (later : ℕ) (db : Db)
    → OnRecord cfg.rate_window_ms later kind value db.invitation_hits
    → 0 < wait_of cfg kind value later db
counted-waits cfg kind value later db on =
    rw (any-nonempty (counts cfg.rate_window_ms later kind value) db.invitation_hits on)
      (omega arith)

module _ (cfg : FaucetConfig) (later : ℕ) where
  abbrev window : ℕ
  window = cfg.invitations.rate_window_ms

  -- The wait is asked for still, after the calls in between.
  value-waits :
      (input : IssueRequest) (now : ℕ) (kind : HitKind) (value : String) (cs : List Call) (db : Db)
      → HasHits input now db
      → any (counts window later kind value) (batch_hits input now) ≡ true
      → All (IsWithin window later) cs
      → 0 < wait_of cfg.invitations kind value later (prune cfg later (perform_all cs db))
  value-waits input now kind value cs db hits counted times =
      counted-waits cfg.invitations kind value later (prune cfg later (perform_all cs db)) (
        prune-OnRecord window later kind value cfg later (perform_all cs db) (omega arith) refl (
          perform_all-OnRecord window later kind value cs db times
            (batch-OnRecord window input now later kind value db hits counted)))

  retry-waits :
      (input input' : IssueRequest) (now : ℕ) (cs : List Call) (db : Db)
      → HasHits input now db
      → later < now + window
      → All (IsWithin window later) cs
      → (input'.ip_hash ≡ input.ip_hash) ⊎ (input'.device_hash ≡ input.device_hash)
      → 0 < retry_after cfg.invitations input' later (prune cfg later (perform_all cs db))
  retry-waits input input' now cs db h soon times (inl same_ip) =
      let waits =
        value-waits input now by_ip input'.ip_hash cs db h
          (rw (same_ip, same_refl input.ip_hash, lt→ltb later (now + window) soon) refl) times in
      omega (arith, waits)
  retry-waits input input' now cs db h soon times (inr same_device) =
      let waits =
        value-waits input now by_device input'.device_hash cs db h
          (rw (same_device, same_refl input.device_hash, lt→ltb later (now + window) soon) refl)
          times in
      omega (arith, waits)

-- With a window and hits in it nothing is handed out.
issue_pruned-waits :
    (cfg : InvitationConfig) (vault : Vault) (input : IssueRequest) (now : ℕ) (db : Db)
    → 0 < cfg.rate_window_ms
    → 0 < retry_after cfg input now db
    → ((issue_pruned cfg vault input now db).0 ≡ db)
      × IsHeldBack (issue_pruned cfg vault input now db).1
unfolding issue_pruned
issue_pruned-waits cfg vault input now db window waits =
    elim (Bool-cases (is_empty (prior_vouchers cfg input.device_hash now db))) [
      | inl fresh ↦
          rw (lt→ltb 0 _ window, fresh, lt→ltb 0 (retry_after cfg input now db) waits) (refl, waits)
      | inr again ↦ rw (lt→ltb 0 _ window, again) (refl, replay_vouchers-IsHeldBack cfg vault _)
    ]

-- After vouchers were newly handed out, and any sequence of issues, payouts and maintenance of the
-- inventory and of the wallet, at times up to a later one within the rate window and with the same
-- window, a request from the same IP or the same device at that later time changes nothing but
-- what `prune` deletes, and gets a repetition, the error of a voucher that does not open, or a
-- time to wait that is positive; never new vouchers.
pub issue_invitation-waits :
    (cfg : FaucetConfig) (vault vault' : Vault) (input input' : IssueRequest) (now later : ℕ)
    (db : Db) (is : List Invitation) (cs : List Call)
    → (issue_invitation cfg vault input now db).1 ≡ handed is false
    → now ≤ later
    → later < now + cfg.invitations.rate_window_ms
    → (input'.ip_hash ≡ input.ip_hash) ⊎ (input'.device_hash ≡ input.device_hash)
    → All (IsWithin cfg.invitations.rate_window_ms later) cs
    → ((issue_invitation cfg vault' input' later
          (perform_all cs (issue_invitation cfg vault input now db).0)).0
        ≡ prune cfg later (perform_all cs (issue_invitation cfg vault input now db).0))
      × IsHeldBack
          (issue_invitation cfg vault' input' later
            (perform_all cs (issue_invitation cfg vault input now db).0)).1
issue_invitation-waits cfg vault vault' input input' now later db is cs fresh ordered soon who
      times =
    let first = (issue_invitation cfg vault input now db).0 in
    let after = perform_all cs first in
    let hits = issue_invitation-HasHits cfg vault input now db is fresh in
    let (on, same) = issue_invitation-fresh cfg vault input now db is fresh in
    subst (λ (s : Db × IssueResult). (s.0 ≡ prune cfg later after) × IsHeldBack s.1)
      (sym (issue_invitation-on cfg vault' input' later after on))
      (issue_pruned-waits cfg.invitations vault' input' later (prune cfg later after)
        (omega (arith, ordered, soon))
        (retry-waits cfg later input input' now cs first hits soon times who))
