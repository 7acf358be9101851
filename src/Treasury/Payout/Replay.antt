-- ===== src/Treasury/Payout/Replay.antt =====
-- A second request for an address on the same day is answered from the first one's claim.
use dash_faucet_cf.Base.{
  subst, ℕ, ◌+◌, ◌*◌, ◌≡◌, refl, sym, ap, ◌∙◌, inl, inr, String, true, false, none, some, [], arith,
  if◌then◌else◌, leb, same_refl, find, filter,
}
use dash_faucet_cf.Config.{FaucetConfig}
use dash_faucet_cf.Db.{Db, Claim, utc_day, day_ms}
use dash_faucet_cf.Db.Sql.{delete_where-none, find-filter, find-append_new}
use dash_faucet_cf.Tx.{BuiltTx}
use dash_faucet_cf.Treasury.{World}
use dash_faucet_cf.Treasury.Ledger.{prune}
use dash_faucet_cf.Treasury.Admission.{
  PayoutRequest, PayoutResult, Receipt, paid, Payer, public_faucet, by_key, by_code, refuse,
  admission, admit_public, admit_key, admit_code, admit_ip, code_invalid, claim_of, replay_of,
}
use dash_faucet_cf.Treasury.Keys.{authorize_key_payout}
use dash_faucet_cf.Accounts.{check_code}
use dash_faucet_cf.Treasury.Books.{books}
use dash_faucet_cf.Treasury.Payout.{claim_made, charge, record_claim, payout_locked, pay_admitted}
use dash_faucet_cf.Treasury.Payout.Admit.{admission-IsEntitled}
use dash_faucet_cf.Treasury.Payout.Entitled.{IsEntitled}
use dash_faucet_cf.Treasury.Payout.Refused.{is_new_receipt}
use dash_faucet_cf.Treasury.Payout.Commit.{payout_locked-Accounted, IsOutcome}

-- A request without credentials.
abbrev pub IsAnonymous : PayoutRequest → Type 0
IsAnonymous input = (input.api_key_hash ≡ none) × (input.code_key ≡ none)

admission-claimed :
    (cfg : FaucetConfig) (input : PayoutRequest) (now : ℕ) (db : Db) (c : Claim)
    → IsAnonymous input
    → find (claim_of input.address (utc_day now)) db.claims ≡ some c
    → admission cfg input now db ≡ refuse (replay_of c)
unfolding admission admit_public
admission-claimed cfg input now db c (no_key, no_code) found =
    ap
      (λ hash. elim hash [
        | some x ↦ admit_key (authorize_key_payout cfg x input.requested_sats now db)
        | none ↦ elim (input.code_key) [
          | some k ↦
              if cfg.api_keys.enabled
              then admit_code (check_code db k input.address now)
              else refuse code_invalid
          | none ↦ admit_public cfg input now db
        ]
      ])
      no_key
    ∙ ap
        (λ code. elim code [
          | some k ↦
              if cfg.api_keys.enabled
              then admit_code (check_code db k input.address now)
              else refuse code_invalid
          | none ↦ admit_public cfg input now db
        ])
        no_code
    ∙ ap (λ prior. elim prior [ some x ↦ refuse (replay_of x) | none ↦ admit_ip cfg input now db ])
        found

-- A claim of today answers every anonymous request for its address, without any other check.
payout_locked-claimed :
    (cfg : FaucetConfig) (w : World) (input : PayoutRequest) (db : Db) (c : Claim)
    → IsAnonymous input
    → find (claim_of input.address (utc_day w.now)) (prune cfg w.now db).claims ≡ some c
    → payout_locked cfg w input db ≡ (prune cfg w.now db, replay_of c)
unfolding payout_locked pay_admitted
payout_locked-claimed cfg w input db c anonymous found =
    ap (pay_admitted cfg w input (prune cfg w.now db))
      (admission-claimed cfg input w.now (prune cfg w.now db) c anonymous found)

abbrev of_paid {ℓ} : {A : Type ℓ} → (Receipt → A) → A → PayoutResult → A
of_paid f d (paid r) = f r
of_paid f d _ = d

-- The claim that a public payout leaves is found, and stays for the rest of its day.
charge-claim :
    (input : PayoutRequest) (built : BuiltTx) (satoshis now later : ℕ) (db : Db)
    → find (claim_of input.address (utc_day now)) db.claims ≡ none
    → utc_day later ≡ utc_day now
    → find (claim_of input.address (utc_day now)) (
        filter
          (λ r. leb later (r.created_at + 7 * day_ms))
          (charge public_faucet input built satoshis now db).claims)
      ≡ some (claim_made input built satoshis now)
unfolding charge record_claim
charge-claim input built satoshis now later db fresh same_day =
    find-filter (claim_of input.address (utc_day now)) (λ r. leb later (r.created_at + 7 * day_ms))
      _ _
      (rw (delete_where-none (claim_of input.address (utc_day now)) db.claims fresh) (
        find-append_new (claim_of input.address (utc_day now)) db.claims
          (claim_made input built satoshis now) fresh (ground (arith, same_refl input.address))))
      (ground arith)

prune-claims :
    (cfg : FaucetConfig) (now : ℕ) (db : Db)
    → (prune cfg now db).claims ≡ filter (λ r. leb now (r.created_at + 7 * day_ms)) db.claims
unfolding prune
prune-claims cfg now db = refl

abbrev pub replay_of_payout : String → ℕ → PayoutResult
replay_of_payout txid satoshis = paid record {
  txid = txid;
  satoshis = satoshis;
  replay = true;
  dry_run = false;
  accepted = [];
  key_id = none;
  code_label = none;
}

-- The receipt of a replay of the payout.
abbrev pub replay_receipt : Receipt → PayoutResult
replay_receipt r = replay_of_payout r.txid r.satoshis

-- A request without credentials that got a receipt of a new payout is repeated, in the same UTC
-- day: the repetition changes nothing but what `prune` deletes, and returns the first payout's
-- transaction.
pub payout_locked-replays :
    (cfg : FaucetConfig) (w later : World) (input again : PayoutRequest) (db : Db) (r : Receipt)
    → IsAnonymous input
    → (payout_locked cfg w input db).1 ≡ paid r
    → r.replay ≡ false
    → r.dry_run ≡ false
    → IsAnonymous again
    → again.address ≡ input.address
    → utc_day later.now ≡ utc_day w.now
    → payout_locked cfg later again (payout_locked cfg w input db).0
      ≡ (prune cfg later.now (payout_locked cfg w input db).0, replay_receipt r)
payout_locked-replays cfg w later input again db r (no_key, no_code) got new real anonymous
      same_address same_day =
    elim (payout_locked-Accounted cfg w input db) [
      | inl (same_books, only) ↦
          absurd (ground (arith, subst (λ x. is_new_receipt x ≡ false) got only))
      | inr (payer, satoshis, built, admitted, booked, made, locked, result) ↦
          charged payer satoshis built booked result
            (admission-IsEntitled cfg input w.now (prune cfg w.now db) payer satoshis admitted)
    ]
  where
    after : Db
    after = (payout_locked cfg w input db).0

    found :
        (built : BuiltTx) (satoshis : ℕ)
        → find (claim_of input.address (utc_day w.now)) (prune cfg w.now db).claims ≡ none
        → books after ≡ books (charge public_faucet input built satoshis w.now (prune cfg w.now db))
        → find (claim_of input.address (utc_day w.now)) (prune cfg later.now after).claims
          ≡ some (claim_made input built satoshis w.now)
    found built satoshis fresh booked =
        ap (find (claim_of input.address (utc_day w.now))) (
          prune-claims cfg later.now after
          ∙ ap (λ b. filter (λ r. leb later.now (r.created_at + 7 * day_ms)) b.claims) booked)
        ∙ charge-claim input built satoshis w.now later.now (prune cfg w.now db) fresh same_day

    charged :
        (payer : Payer) (satoshis : ℕ) (built : BuiltTx)
        → books after ≡ books (charge payer input built satoshis w.now (prune cfg w.now db))
        → IsOutcome w.network payer satoshis built (payout_locked cfg w input db).1
        → IsEntitled cfg input w.now (prune cfg w.now db) payer satoshis
        → payout_locked cfg later again after ≡ (prune cfg later.now after, replay_receipt r)
    charged (by_key key) satoshis built booked result (hash, given, rest) = absurd (cc)
    charged (by_code code) satoshis built booked result (key, given, amount, rest) = absurd (cc)
    charged public_faucet satoshis built booked (inr (why, private, unclear, silent)) entitled =
        absurd (cc)
    charged public_faucet satoshis built booked (inl (accepted, e, seen))
          (amount, fresh, below, fits) =
        payout_locked-claimed cfg later again after (claim_made input built satoshis w.now)
          anonymous
          (subst
            (λ a.
              find (claim_of a (utc_day later.now)) (prune cfg later.now after).claims
              ≡ some (claim_made input built satoshis w.now))
            (sym same_address)
            (subst
              (λ d.
                find (claim_of input.address d) (prune cfg later.now after).claims
                ≡ some (claim_made input built satoshis w.now))
              (sym same_day) (found built satoshis fresh booked)))
        ∙ ap (λ t. (prune cfg later.now after, replay_of_payout t satoshis))
            (ap (of_paid (λ x. x.txid) "") (sym e ∙ got))
        ∙ ap (λ n. (prune cfg later.now after, replay_of_payout r.txid n))
            (ap (of_paid (λ x. x.satoshis) 0) (sym e ∙ got))
