-- ===== src/Treasury/Payout/Locked.antt =====
-- The transaction of a payout: that it was built for its recipient, and that its inputs are marked
-- as spent.
use dash_faucet_cf.Base.{
  [], ◌∷◌, All, All-map, same_refl, ◌==◌, subst, ℕ, ◌≡◌, refl, sym, ◌⊎◌, inl, inr, Bool, true,
  false, ◌||◌, some, List, any, filter, length, ltb, ◌==◌, arith, if◌then◌else◌,
}
use dash_faucet_cf.Config.{FaucetConfig}
use dash_faucet_cf.Db.{Db, SpentRow}
use dash_faucet_cf.Tx.{
  Outpoint, Utxo, BuiltTx, insufficient_funds, too_fragmented, unconfirmed_funds, self_pay, refused,
  FaucetKey, Result, ok, err,
}
use dash_faucet_cf.Tx.Build.{build_payout}
use dash_faucet_cf.Treasury.{World, Network}
use dash_faucet_cf.Treasury.Ledger.{lock_outpoints, lock_inputs, record_spend, record_verdict}
use dash_faucet_cf.Treasury.Ledger.Locks.{HasLock, outpoint_at, lock_outpoints_lem}
use dash_faucet_cf.Treasury.Broadcast.{Settlement, settled, unsettled, threw, settle_broadcast}
use dash_faucet_cf.Treasury.Broadcast.Outcome.{Means, settle_broadcast-Means}
use dash_faucet_cf.Treasury.Keys.{record_key_payout}
use dash_faucet_cf.Accounts.{record_redemption}
use dash_faucet_cf.Treasury.Merging.{schedule_maintenance, follow_up_ms, collateral_coin_sats}
use dash_faucet_cf.Treasury.Admission.{PayoutRequest, Payer, public_faucet, by_key, by_code}
use dash_faucet_cf.Treasury.Payout.{
  is_key, spent_collateral, or_with_all, build_sparing, record_claim, charge, commit,
}

abbrev pub AreLocked : List Outpoint → ℕ → List SpentRow → Type 0
AreLocked os now spent = All (λ o. HasLock o.txid o.output_index now spent) os

-- Every input of the transaction is marked as spent.
abbrev pub IsLocked : BuiltTx → ℕ → Db → Type 0
IsLocked built now db = AreLocked built.inputs now db.spent

-- The transaction was built for the recipient and the amount of the request, out of some coins.
abbrev pub IsMade : FaucetConfig → World → PayoutRequest → ℕ → BuiltTx → Type 0
IsMade cfg w input satoshis built =
    (key : FaucetKey) × (coins : List Utxo) × (build_payout w.lib key coins input.pub_key_hash
        satoshis (some cfg.max_payout_inputs)
      ≡ ok built)

-- A transaction that may have landed has its inputs marked as spent.
abbrev pub IsLockedIfUncertain : BuiltTx → ℕ → Db → Settlement → Type 0
IsLockedIfUncertain built now db (settled names) = Unit
IsLockedIfUncertain built now db (unsettled uncertain why) =
    uncertain ≡ true → IsLocked built now db
IsLockedIfUncertain built now db threw = Unit

charge-spent :
    (payer : Payer) (input : PayoutRequest) (built : BuiltTx) (satoshis now : ℕ) (db : Db)
    → (charge payer input built satoshis now db).spent ≡ db.spent
unfolding charge record_claim record_key_payout record_redemption
charge-spent public_faucet input built satoshis now db = refl
charge-spent (by_key key) input built satoshis now db = refl
charge-spent (by_code code) input built satoshis now db = refl

pub schedule_maintenance-spent :
    (cfg : FaucetConfig) (w : World) (delay : ℕ) (db : Db)
    → (schedule_maintenance cfg w delay db).spent ≡ db.spent
unfolding schedule_maintenance
schedule_maintenance-spent cfg w delay db = ground arith

pub charge-IsLocked :
    (payer : Payer) (input : PayoutRequest) (built : BuiltTx) (satoshis now since : ℕ)
    (locked : BuiltTx) (db : Db)
    → IsLocked locked since db
    → IsLocked locked since (charge payer input built satoshis now db)
charge-IsLocked payer input built satoshis now since locked db h =
    subst (AreLocked locked.inputs since) (sym (charge-spent payer input built satoshis now db)) h

listed : (os : List Outpoint) → All (λ o. any (outpoint_at o.txid o.output_index) os ≡ true) os
listed [] = tt
listed (o ∷ os) =
    (ground (arith, same_refl o.txid), All-map (λ p in_os. ground (arith, in_os)) os (listed os))

lock_outpoints-AreLocked :
    (os : List Outpoint) (now : ℕ) (spent : List SpentRow)
    → AreLocked os now (lock_outpoints os now spent)
lock_outpoints-AreLocked os now spent =
    All-map (λ o in_os. lock_outpoints_lem o.txid o.output_index os now spent in_os) os (listed os)

lock_inputs-IsLocked :
    (built : BuiltTx) (now : ℕ) (db : Db) → IsLocked built now (lock_inputs built now db)
unfolding lock_inputs
lock_inputs-IsLocked built now db = lock_outpoints-AreLocked built.inputs now db.spent

pub record_spend-IsLocked :
    (built : BuiltTx) (now : ℕ) (db : Db) → IsLocked built now (record_spend built now db)
unfolding record_spend lock_inputs record_verdict
record_spend-IsLocked built now db = lock_outpoints-AreLocked built.inputs now db.spent

pub commit-IsLocked :
    (cfg : FaucetConfig) (w : World) (input : PayoutRequest) (payer : Payer) (satoshis : ℕ)
    (utxos : List Utxo) (built : BuiltTx) (db : Db)
    → IsLocked built w.now (commit cfg w input payer satoshis utxos built db)
unfolding commit
commit-IsLocked cfg w input payer satoshis utxos built db =
    booked (is_key payer || spent_collateral utxos built)
  where
    charged : Db
    charged = charge payer input built satoshis w.now (record_spend built w.now db)

    unscheduled : IsLocked built w.now charged
    unscheduled =
        charge-IsLocked payer input built satoshis w.now w.now built (record_spend built w.now db)
          (record_spend-IsLocked built w.now db)

    booked :
        (b : Bool)
        → IsLocked built w.now
            (if b then schedule_maintenance cfg w follow_up_ms charged else charged)
    booked false = unscheduled
    booked true =
        subst (AreLocked built.inputs w.now)
          (sym (schedule_maintenance-spent cfg w follow_up_ms charged)) unscheduled

pub settle_broadcast-IsLocked :
    (net : Network) (built : BuiltTx) (now : ℕ) (db : Db)
    → IsLockedIfUncertain built now
        (settle_broadcast net built now db).0
        (settle_broadcast net built now db).1
settle_broadcast-IsLocked net built now db =
    go (settle_broadcast net built now db) (settle_broadcast-Means net built now db)
  where
    go :
        (out : Db × Settlement)
        → Means net built now db out
        → IsLockedIfUncertain built now out.0 out.1
    go (db', settled names) m = tt
    go (db', unsettled true why) (locked, silent) =
        λ e. subst (IsLocked built now) (sym locked) (lock_inputs-IsLocked built now db)
    go (db', unsettled false why) m = λ e. absurd (cc)
    go (db', threw) m = tt

or_with_all-ok :
    (spare everything : Result BuiltTx) (built : BuiltTx)
    → or_with_all spare everything ≡ ok built
    → (spare ≡ ok built) ⊎ (everything ≡ ok built)
unfolding or_with_all
or_with_all-ok (ok b) everything built h = inl h
or_with_all-ok (err (insufficient_funds a r)) everything built h = inr h
or_with_all-ok (err (too_fragmented n m)) everything built h = inr h
or_with_all-ok (err (unconfirmed_funds c r)) everything built h = inr h
or_with_all-ok (err self_pay) everything built h = absurd (cc)
or_with_all-ok (err refused) everything built h = absurd (cc)

pub build_sparing-IsMade :
    (cfg : FaucetConfig) (w : World) (input : PayoutRequest) (key : FaucetKey) (utxos : List Utxo)
    (satoshis : ℕ) (for_collateral : Bool) (built : BuiltTx)
    → build_sparing cfg w.lib key utxos input.pub_key_hash satoshis for_collateral ≡ ok built
    → IsMade cfg w input satoshis built
unfolding build_sparing
build_sparing-IsMade cfg w input key utxos satoshis for_collateral built =
    go (for_collateral || cfg.collateral_coins == 0) (length spare == length utxos)
  where
    spare : List Utxo
    spare = filter (λ u. ltb u.satoshis collateral_coin_sats) utxos

    build : List Utxo → Result BuiltTx
    build coins =
        build_payout w.lib key coins input.pub_key_hash satoshis (some cfg.max_payout_inputs)

    go :
        (b c : Bool)
        → (if b
            then build utxos
            else if c
            then build utxos
            else or_with_all (build spare) (build utxos))
          ≡ ok built
        → IsMade cfg w input satoshis built
    go true c h = (key, utxos, h)
    go false true h = (key, utxos, h)
    go false false h = elim (or_with_all-ok (build spare) (build utxos) built h) [
      | inl from_spare ↦ (key, spare, from_spare)
      | inr from_all ↦ (key, utxos, from_all)
    ]
