-- ===== src/Treasury/Invitations/Remembered.antt =====
-- A hit of the rate window is not forgotten before its window is over, whatever src/treasury.ts is
-- called for meanwhile.
use dash_faucet_cf.Base.{
  ℕ, ◌+◌, ◌≤◌, ◌≡◌, refl, sym, ap, subst, Bool, true, false, ◌&&◌, String, List, [], ◌∷◌,
  if◌then◌else◌, ltb, leb, same, any, filter, arith, Bool-cases, inl, inr, All,
}
use dash_faucet_cf.Config.{FaucetConfig, InvitationConfig}
use dash_faucet_cf.Db.{Db, InvitationHit, UsedCap, HitKind}
use dash_faucet_cf.Db.Sql.{any-append}
use dash_faucet_cf.Tx.{BuiltTx}
use dash_faucet_cf.Treasury.Books.{Books}
use dash_faucet_cf.Treasury.Broadcast.{is_empty}
use dash_faucet_cf.Treasury.Ledger.{prune}
use dash_faucet_cf.Treasury.Admission.{PayoutRequest, Payer, public_faucet, by_key, by_code}
use dash_faucet_cf.Treasury.Payout.{charge, record_claim}
use dash_faucet_cf.Treasury.Payout.Commit.{payout_locked-books}
use dash_faucet_cf.Treasury.Keys.{record_key_payout}
use dash_faucet_cf.Accounts.{record_redemption}
use dash_faucet_cf.Treasury.Maintenance.Own.{maintain-IsOwnAffair}
use dash_faucet_cf.Treasury.Invitations.{Vault, backfill_invitation_amounts}
use dash_faucet_cf.Treasury.Invitations.Issuing.{
  IssueRequest, Handing, is_kind, conclude_issue, issue_fresh, issue_pruned, issue_invitation,
  wanted, rounds, nothing_yet, prior_vouchers, retry_after,
}
use dash_faucet_cf.Treasury.Invitations.Tending.{maintain_invitations}
use dash_faucet_cf.Treasury.Invitations.Recorded.{tend_inventory-records}
use dash_faucet_cf.Treasury.Invitations.Recorded.Issued.{hand_out-records}
use dash_faucet_cf.Treasury.Invitations.Ending.{
  Call, issue, tend, pay, upkeep, perform, perform_all,
}

abbrev pub time_of : Call → ℕ
time_of (issue cfg vault input now) = now
time_of (tend cfg w vault coinage) = w.now
time_of (pay cfg w input) = w.now
time_of (upkeep cfg w) = w.now

-- The rate window of the configuration of a call.
abbrev pub window_of : Call → ℕ
window_of (issue cfg vault input now) = cfg.invitations.rate_window_ms
window_of (tend cfg w vault coinage) = cfg.invitations.rate_window_ms
window_of (pay cfg w input) = cfg.invitations.rate_window_ms
window_of (upkeep cfg w) = cfg.invitations.rate_window_ms

-- A call not after the time, with the same rate window.
abbrev pub IsWithin : ℕ → ℕ → Call → Type 0
IsWithin window later c = (time_of c ≤ later) × (window_of c ≡ window)

-- The test of `hits_of`.
abbrev pub counts : ℕ → ℕ → HitKind → String → InvitationHit → Bool
counts window later kind value h =
    is_kind h.kind kind && same h.value_hash value && ltb later (h.created_at + window)

-- A hit that counts is on record.
abbrev pub OnRecord : ℕ → ℕ → HitKind → String → List InvitationHit → Type 0
OnRecord window later kind value hits = any (counts window later kind value) hits ≡ true

abbrev hits_in : List InvitationHit × List UsedCap → List InvitationHit
hits_in r = r.0

module _ (window later : ℕ) (kind : HitKind) (value : String) where
  -- What `prune` deletes does not count.
  filter-OnRecord :
      (now : ℕ) (hits : List InvitationHit)
      → now ≤ later
      → OnRecord window later kind value hits
      → OnRecord window later kind value (filter (λ r. leb now (r.created_at + window)) hits)
  filter-OnRecord now [] le h = absurd (cc)
  filter-OnRecord now (r ∷ hits) le h = ground (arith, filter-OnRecord now hits le)

  pub prune-OnRecord :
      (cfg : FaucetConfig) (now : ℕ) (db : Db)
      → now ≤ later
      → cfg.invitations.rate_window_ms ≡ window
      → OnRecord window later kind value db.invitation_hits
      → OnRecord window later kind value (prune cfg now db).invitation_hits
  unfolding prune
  prune-OnRecord cfg now db le same_window h =
      subst
        (λ n.
          OnRecord window later kind value
            (filter (λ r. leb now (r.created_at + n)) db.invitation_hits))
        (sym same_window) (filter-OnRecord now db.invitation_hits le h)

  abbrev Holds {ℓ} : {A : Type ℓ} → Db × A → Type 0
  Holds s = OnRecord window later kind value s.0.invitation_hits

  if-Holds {ℓ} :
      {A : Type ℓ} (b : Bool) (x y : Db × A) → Holds x → Holds y → Holds (if b then x else y)
  if-Holds true x y h k = h
  if-Holds false x y h k = k

  conclude-OnRecord :
      (input : IssueRequest) (now : ℕ) (s : Db × Handing)
      → Holds s
      → Holds (conclude_issue input now s)
  unfolding conclude_issue
  conclude-OnRecord input now (db, h) on = elim (Bool-cases (is_empty h.invitations)) [
    | inl none_ ↦ rw none_ on
    | inr some_ ↦ rw some_ (any-append (counts window later kind value) db.invitation_hits _ on)
  ]

  module _ (cfg : InvitationConfig) (vault : Vault) (input : IssueRequest) (now : ℕ) (db : Db) where
    fresh-OnRecord :
        OnRecord window later kind value db.invitation_hits
        → Holds (issue_fresh cfg vault input now db)
    unfolding issue_fresh
    fresh-OnRecord h = conclude-OnRecord input now _ (
        subst (OnRecord window later kind value)
          (sym (
            ap hits_in (
              hand_out-records cfg vault input.device_hash now (wanted cfg input) (rounds db)
                (db, nothing_yet))))
          h)

    pruned-OnRecord :
        OnRecord window later kind value db.invitation_hits
        → Holds (issue_pruned cfg vault input now db)
    unfolding issue_pruned
    pruned-OnRecord h =
        if-Holds (ltb 0 cfg.rate_window_ms) _ _
          (if-Holds (is_empty (prior_vouchers cfg input.device_hash now db)) _ _
            (if-Holds (ltb 0 (retry_after cfg input now db)) _ _ h (fresh-OnRecord h)) h)
          (fresh-OnRecord h)

  charge-hits :
      (payer : Payer) (input : PayoutRequest) (built : BuiltTx) (satoshis now : ℕ) (db : Db)
      → (charge payer input built satoshis now db).invitation_hits ≡ db.invitation_hits
  unfolding charge record_claim record_key_payout record_redemption
  charge-hits public_faucet input built satoshis now db = refl
  charge-hits (by_key key) input built satoshis now db = refl
  charge-hits (by_code code) input built satoshis now db = refl

  perform-OnRecord :
      (c : Call) (db : Db)
      → IsWithin window later c
      → OnRecord window later kind value db.invitation_hits
      → OnRecord window later kind value (perform c db).invitation_hits
  unfolding issue_invitation maintain_invitations backfill_invitation_amounts
  perform-OnRecord (issue cfg vault input now) db (le, same_window) h =
      if-Holds cfg.invitations.enabled _ _
        (pruned-OnRecord cfg.invitations vault input now (prune cfg now db)
          (prune-OnRecord cfg now db le same_window h))
        h
  perform-OnRecord (tend cfg w vault coinage) db (le, same_window) h =
      if-Holds cfg.invitations.enabled _ _
        (if-Holds cfg.dry_run _ _ h (
          subst (OnRecord window later kind value)
            (sym (
              ap hits_in (
                tend_inventory-records cfg.invitations w vault coinage
                  (backfill_invitation_amounts (prune cfg w.now db)))))
            (prune-OnRecord cfg w.now db le same_window h)))
        h
  perform-OnRecord (pay cfg w input) db (le, same_window) h =
      let pruned = prune-OnRecord cfg w.now db le same_window h in
      payout_locked-books (λ b. OnRecord window later kind value b.invitation_hits) cfg w input db
        pruned
        (λ payer satoshis built admitted.
          subst (OnRecord window later kind value)
            (sym (charge-hits payer input built satoshis w.now (prune cfg w.now db))) pruned)
  perform-OnRecord (upkeep cfg w) db (le, same_window) h =
      subst (OnRecord window later kind value)
        (sym (ap (λ (b : Books). b.invitation_hits) (maintain-IsOwnAffair cfg w db).0))
        (prune-OnRecord cfg w.now db le same_window h)

  pub perform_all-OnRecord :
      (cs : List Call) (db : Db)
      → All (IsWithin window later) cs
      → OnRecord window later kind value db.invitation_hits
      → OnRecord window later kind value (perform_all cs db).invitation_hits
  unfolding perform_all
  perform_all-OnRecord [] db times h = h
  perform_all-OnRecord (c ∷ cs) db (within, times) h =
      perform_all-OnRecord cs (perform c db) times (perform-OnRecord c db within h)
