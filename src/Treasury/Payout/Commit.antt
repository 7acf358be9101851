-- ===== src/Treasury/Payout/Commit.antt =====
-- What a call of `payoutLocked` does to the books of who was paid what.
use dash_faucet_cf.Base.{
  subst, ℕ, ◌+◌, ◌≡◌, refl, sym, ◌∙◌, ◌⊎◌, inl, inr, String, Bool, true, false, ◌&&◌, ◌||◌, not,
  Option, none, some, List, [], arith, Bool-cases, Option-cases, if◌then◌else◌,
}
use dash_faucet_cf.Config.{FaucetConfig, coin}
use dash_faucet_cf.Db.{Db}
use dash_faucet_cf.Tx.{
  Utxo, BuiltTx, TxError, insufficient_funds, too_fragmented, unconfirmed_funds, self_pay, refused,
  FaucetKey, Result, ok, err,
}
use dash_faucet_cf.Treasury.{World, Network, Snapshot}
use dash_faucet_cf.Treasury.Ledger.{prune, record_spend}
use dash_faucet_cf.Treasury.Broadcast.{
  Settlement, settled, unsettled, threw, Refusal, settle_broadcast,
}
use dash_faucet_cf.Treasury.Broadcast.Outcome.{Means, IsSeen, IsSilent, settle_broadcast-Means}
use dash_faucet_cf.Treasury.Merging.{follow_up_ms, merging, plan_merge}
use dash_faucet_cf.Treasury.Admission.{
  PayoutRequest, PayoutResult, chain_unavailable, not_settled, Payer, Admission, refuse, admit,
  admission,
}
use dash_faucet_cf.Treasury.Books.{
  Books, books, spendable_utxos-books, record_spend-books, settle_broadcast-books,
  schedule_maintenance-books,
}
use dash_faucet_cf.Treasury.Payout.Refused.{
  is_new_receipt, IsReplayAtMost, admission-IsReplayAtMost,
}
use dash_faucet_cf.Treasury.Payout.Locked.{
  IsLocked, IsMade, IsLockedIfUncertain, charge-IsLocked, commit-IsLocked,
  settle_broadcast-IsLocked, build_sparing-IsMade,
}
use dash_faucet_cf.Treasury.Payout.{
  is_public, is_mn, is_nothing, add_demand, build_sparing, build_failed, receipt, charge,
  charge_uncertain, commit, conclude, send, eats_reserve, pay_from, pay_view, pay, pay_admitted,
  payout_locked,
}
use dash_faucet_cf.Treasury.Payout.Charge.{charge-books}

-- Nothing was booked: the result is no receipt, or one for a replay or a dry run.
abbrev pub IsUnbooked : Db → Db × PayoutResult → Type 0
IsUnbooked start (db, result) = (books db ≡ books start) × (is_new_receipt result ≡ false)

-- A charged payer's result: the receipt, where a relay took the transaction or a node has seen it;
-- or, for a key or a code, that its outcome is not known, where no relay took it at either attempt,
-- some gave no answer and no node says that it has it.
abbrev pub IsOutcome : Network → Payer → ℕ → BuiltTx → PayoutResult → Type 0
IsOutcome net payer satoshis built result =
    ((accepted : List String) × (result ≡ receipt payer built satoshis false accepted)
      × IsSeen net built)
    ⊎ ((why : Refusal) × (is_public payer ≡ false)
        × (result ≡ chain_unavailable (not_settled why))
        × IsSilent net built)

-- The payer whom the checks admitted was charged once, for a transaction to the recipient whose
-- inputs are marked as spent and that settled; or a key or a code was charged for one that may have
-- landed.
abbrev pub IsBooked : FaucetConfig → World → PayoutRequest → Db → Db × PayoutResult → Type 0
IsBooked cfg w input start (db, result) =
    (payer : Payer) × (satoshis : ℕ) × (built : BuiltTx) × (admission cfg input w.now start
      ≡ admit payer satoshis)
    × (books db ≡ books (charge payer input built satoshis w.now start))
    × IsMade cfg w input satoshis built
    × IsLocked built w.now db
    × IsOutcome w.network payer satoshis built result

abbrev pub Accounted : FaucetConfig → World → PayoutRequest → Db → Db × PayoutResult → Type 0
Accounted cfg w input start out = IsUnbooked start out ⊎ IsBooked cfg w input start out

uncertain-IsSilent :
    (net : Network) (built : BuiltTx) (now : ℕ) (sent db : Db) (uncertain : Bool) (why : Refusal)
    → uncertain ≡ true
    → Means net built now sent (db, unsettled uncertain why)
    → IsSilent net built
uncertain-IsSilent net built now sent db true why e m = m.1
uncertain-IsSilent net built now sent db false why e m = absurd (cc)

module _ (cfg : FaucetConfig) (w : World) (input : PayoutRequest) (start : Db) (payer : Payer)
    (satoshis : ℕ) (admitted : admission cfg input w.now start ≡ admit payer satoshis) where
  commit-books :
      (utxos : List Utxo) (built : BuiltTx) (db : Db)
      → books db ≡ books start
      → books (commit cfg w input payer satoshis utxos built db)
        ≡ books (charge payer input built satoshis w.now start)
  unfolding commit
  commit-books utxos built db e = ground (
    arith,
    schedule_maintenance-books cfg w follow_up_ms
        (charge payer input built satoshis w.now (record_spend built w.now db)),
    charge-books payer input built satoshis w.now (record_spend built w.now db) start
        (record_spend-books built w.now db ∙ e),
  )

  conclude-Accounted :
      (utxos : List Utxo) (built : BuiltTx) (sent db : Db) (outcome : Settlement)
      → Means w.network built w.now sent (db, outcome)
      → books db ≡ books start
      → IsMade cfg w input satoshis built
      → IsLockedIfUncertain built w.now db outcome
      → Accounted cfg w input start (conclude cfg w input payer satoshis utxos built db outcome)
  unfolding conclude
  conclude-Accounted utxos built sent db (settled accepted) m e made locked = inr (
    payer,
    satoshis,
    built,
    admitted,
    commit-books utxos built db e,
    made,
    commit-IsLocked cfg w input payer satoshis utxos built db,
    inl (accepted, refl, m.1),
  )
  conclude-Accounted utxos built sent db (unsettled uncertain why) m e made locked =
      elim (Bool-cases (uncertain && not (is_public payer))) [
        | inr free ↦ rw (free, charge_uncertain) (inl (e, refl))
        | inl charged ↦
            rw (charged, charge_uncertain)
              (inr (
                payer,
                satoshis,
                built,
                admitted,
                charge-books payer input built satoshis w.now db start e,
                made,
                charge-IsLocked payer input built satoshis w.now w.now built db
                    (locked (ground arith)),
                inr (
                  why,
                  ground arith,
                  refl,
                  uncertain-IsSilent w.network built w.now sent db uncertain why (ground arith) m,
                ),
              ))
      ]
  conclude-Accounted utxos built sent db threw m e made locked = inl (e, refl)

  send-Accounted :
      (utxos : List Utxo) (built : BuiltTx) (db : Db)
      → books db ≡ books start
      → IsMade cfg w input satoshis built
      → Accounted cfg w input start (send cfg w input payer satoshis utxos built db)
  unfolding send
  send-Accounted utxos built db e made = go cfg.dry_run
    where
      go :
          (dry : Bool)
          → Accounted cfg w input start (
              if dry
              then (db, receipt payer built satoshis true [])
              else conclude cfg w input payer satoshis utxos built
                  (settle_broadcast w.network built w.now db).0
                  (settle_broadcast w.network built w.now db).1)
      go true = inl (e, refl)
      go false =
          conclude-Accounted utxos built db (settle_broadcast w.network built w.now db).0
            (settle_broadcast w.network built w.now db).1
            (settle_broadcast-Means w.network built w.now db)
            (settle_broadcast-books w.network built w.now db ∙ e) made
            (settle_broadcast-IsLocked w.network built w.now db)

  build_failed-Accounted :
      (utxos : List Utxo) (e : TxError) (db : Db)
      → books db ≡ books start
      → Accounted cfg w input start (build_failed cfg w utxos satoshis e db)
  unfolding build_failed
  build_failed-Accounted utxos (insufficient_funds a r) db same_books = inl (same_books, refl)
  build_failed-Accounted utxos (unconfirmed_funds c r) db same_books =
      inl (schedule_maintenance-books cfg w follow_up_ms db ∙ same_books, refl)
  build_failed-Accounted utxos (too_fragmented n m) db same_books =
      elim (Bool-cases
        (not (merging cfg) || is_nothing (plan_merge cfg w.lib utxos (satoshis + coin)))) [
          | inl hopeless ↦ rw hopeless (inl (same_books, refl))
          | inr hope ↦ rw hope (
              inl (
                schedule_maintenance-books cfg w follow_up_ms
                      (add_demand (satoshis + coin) w.now db)
                    ∙ same_books,
                refl,
              ))
        ]
  build_failed-Accounted utxos self_pay db same_books = inl (same_books, refl)
  build_failed-Accounted utxos refused db same_books = inl (same_books, refl)

  pay_from-Accounted :
      (key : FaucetKey) (utxos : List Utxo) (db : Db)
      → books db ≡ books start
      → Accounted cfg w input start (pay_from cfg w input payer satoshis key utxos db)
  unfolding pay_from
  pay_from-Accounted key utxos db e = elim (Bool-cases (eats_reserve cfg payer satoshis utxos)) [
    | inl too_much ↦ rw too_much (inl (e, refl))
    | inr fine ↦
        rw fine
          (build (build_sparing cfg w.lib key utxos input.pub_key_hash satoshis (is_mn payer)) refl)
  ]
    where
      build :
          (b : Result BuiltTx)
          → build_sparing cfg w.lib key utxos input.pub_key_hash satoshis (is_mn payer) ≡ b
          → Accounted cfg w input start (elim b [
            | ok built ↦ send cfg w input payer satoshis utxos built db
            | err x ↦ build_failed cfg w utxos satoshis x db
          ])
      build (ok built) h =
          send-Accounted utxos built db e
            (build_sparing-IsMade cfg w input key utxos satoshis (is_mn payer) built h)
      build (err x) h = build_failed-Accounted utxos x db e

  pay_view-Accounted :
      (key : FaucetKey) (view : Db × Option Snapshot)
      → books view.0 ≡ books start
      → Accounted cfg w input start (pay_view cfg w input payer satoshis key view)
  unfolding pay_view
  pay_view-Accounted key (db, none) e = inl (e, refl)
  pay_view-Accounted key (db, some view) e = pay_from-Accounted key view.utxos db e

  pay-Accounted : Accounted cfg w input start (pay cfg w input payer satoshis start)
  unfolding pay
  pay-Accounted = elim (Option-cases w.key) [
    | inl no_key ↦ rw (no_key, pay) (inl (refl, refl))
    | inr (key, loaded) ↦
        rw (loaded, pay)
          (pay_view-Accounted key _ (
            spendable_utxos-books w.network (w.lib.create_pkh_script key.pub_key_hash) w.now start))
  ]

pay_admitted-Accounted :
    (cfg : FaucetConfig) (w : World) (input : PayoutRequest) (db : Db) (a : Admission)
    → admission cfg input w.now db ≡ a
    → IsReplayAtMost a
    → Accounted cfg w input db (pay_admitted cfg w input db a)
unfolding pay_admitted
pay_admitted-Accounted cfg w input db (refuse result) e replay = inl (refl, replay)
pay_admitted-Accounted cfg w input db (admit payer satoshis) e replay =
    pay-Accounted cfg w input db payer satoshis e

-- A payout books nothing, and its result is then no receipt but a replay's or a dry run's, or it
-- charges the admitted payer with the admitted amount exactly once, for a transaction that was
-- built for the recipient and that amount and whose inputs are marked as spent; it charges for a
-- broadcast that settled, with its receipt, where a relay took the transaction or a node has seen
-- it, or, if the payer is a key or a code, for one whose outcome is not known, where no relay took
-- it at two attempts, some gave no answer at the first, and no node says that it has it.
pub payout_locked-Accounted :
    (cfg : FaucetConfig) (w : World) (input : PayoutRequest) (db : Db)
    → Accounted cfg w input (prune cfg w.now db) (payout_locked cfg w input db)
unfolding payout_locked
payout_locked-Accounted cfg w input db =
    pay_admitted-Accounted cfg w input (prune cfg w.now db)
      (admission cfg input w.now (prune cfg w.now db)) refl
      (admission-IsReplayAtMost cfg input w.now (prune cfg w.now db))

-- What holds of the books after the deletions, and after every charge that the checks admit, holds
-- after a payout.
pub payout_locked-books {ℓ} :
    (P : Books → Type ℓ) (cfg : FaucetConfig) (w : World) (input : PayoutRequest) (db : Db)
    → P (books (prune cfg w.now db))
    → ((payer : Payer)
        → (satoshis : ℕ) → (built : BuiltTx)
        → admission cfg input w.now (prune cfg w.now db) ≡ admit payer satoshis
        → P (books (charge payer input built satoshis w.now (prune cfg w.now db))))
    → P (books (payout_locked cfg w input db).0)
payout_locked-books P cfg w input db idle charged = elim (payout_locked-Accounted cfg w input db) [
  | inl (same_books, only) ↦ subst P (sym same_books) idle
  | inr (payer, satoshis, built, admitted, booked, made, locked, result) ↦
      subst P (sym booked) (charged payer satoshis built admitted)
]
