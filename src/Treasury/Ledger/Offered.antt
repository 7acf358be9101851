-- ===== src/Treasury/Ledger/Offered.antt =====
-- What `spendableUtxos` offers to coin selection.
use dash_faucet_cf.Base.{
  ℕ, ◌≡◌, refl, ap, inl, inr, String, Bool, true, false, not, Option, some, List, [], ◌∷◌, arith,
  same_iff, Bool-cases, Option-cases, filter, any, All, All-filter, All-of_filter,
}
use dash_faucet_cf.Db.{Db, SpentRow}
use dash_faucet_cf.Tx.{Utxo, BuiltTx}
use dash_faucet_cf.Treasury.{Network, Snapshot}
use dash_faucet_cf.Treasury.Ledger.{
  coin_at, spent_at, young_txids, record_verdict, classify, classify_young, sits_out, ledger_coins,
  offered, unclassified, settled_db, view_of, spendable_after, spendable_utxos, lock_inputs,
}
use dash_faucet_cf.Treasury.Ledger.Locks.{
  outpoint_at, HasLock, IsHeld, lock_outpoints_lem, reconcile-HasLock,
}

classify-spent :
    (look : String → Option Bool) (now : ℕ) (ts : List String) (db : Db)
    → (classify look now ts db).spent ≡ db.spent
unfolding classify
classify-spent look now [] db = refl
classify-spent look now (t ∷ ts) db = elim (Option-cases (look t)) [
  | inl silent ↦ rw (silent, classify) (classify-spent look now ts db)
  | inr (v, answered) ↦
      rw (answered, classify) (classify-spent look now ts (record_verdict t v now db))
]

classify_young-spent :
    (net : Network) (snapshot : Snapshot) (now : ℕ) (db : Db)
    → (classify_young net snapshot now db).spent ≡ db.spent
unfolding classify_young
classify_young-spent net snapshot now db =
    classify-spent net.is_coinbase now (unclassified (young_txids snapshot) db) db

pub spendable_utxos-some :
    (net : Network) (snapshot : Snapshot) (script : String) (now : ℕ) (db : Db)
    → net.utxos ≡ some snapshot
    → spendable_utxos net script now db ≡ (
      settled_db net snapshot now db,
      some (view_of script snapshot (settled_db net snapshot now db)),
    )
unfolding spendable_utxos
spendable_utxos-some net snapshot script now db answered =
    ap (spendable_after net script now db) answered

module _ (txid : String) (vout : ℕ) where
  -- A coin of the outpoint is a coin that `spent` knows.
  not_spent :
      (spent : List SpentRow) (u : Utxo)
      → any (spent_at txid vout) spent ≡ true
      → not (any (spent_at u.txid u.output_index) spent) ≡ true
      → coin_at txid vout u ≡ false
  not_spent spent u locked kept = elim (Bool-cases (coin_at txid vout u)) [
    | inr other ↦ other
    | inl mine ↦
        let same_txid : u.txid ≡ txid = ground (arith, same_iff u.txid txid) in
        let same_vout : u.output_index ≡ vout = ground arith in
        let seen : any (spent_at u.txid u.output_index) spent ≡ true =
          rw (same_txid, same_vout) locked in
        absurd (ground arith)
  ]

  offered-without :
      (script : String) (snapshot : Snapshot) (db : Db)
      → any (spent_at txid vout) db.spent ≡ true
      → All (λ u. coin_at txid vout u ≡ false) (offered script snapshot db)
  unfolding offered
  offered-without script snapshot db locked =
      All-filter (λ u. coin_at txid vout u ≡ false)
        (λ u. not (sits_out (young_txids snapshot) db u))
        (filter (λ u. not (any (spent_at u.txid u.output_index) db.spent))
          (ledger_coins script snapshot db))
        (All-of_filter (λ u. coin_at txid vout u ≡ false) _
          (λ u kept. not_spent db.spent u locked kept) (ledger_coins script snapshot db))

  -- Where the explorers answer, and an outpoint was marked as spent less than half an hour ago, or
  -- less than a day ago and the explorers still list it as unspent, the view of the coins has no
  -- coin of it, and the lock stays.
  pub spendable_utxos-HasLock :
      (net : Network) (snapshot : Snapshot) (script : String) (since now : ℕ) (db : Db)
      → net.utxos ≡ some snapshot
      → IsHeld txid vout snapshot.utxos since now
      → HasLock txid vout since db.spent
      → let (db', view) = spendable_utxos net script now db in
        HasLock txid vout since db'.spent
        × (v : Snapshot) × (view ≡ some v)
        × All (λ u. coin_at txid vout u ≡ false) v.utxos
  spendable_utxos-HasLock net snapshot script since now db answered held h =
      let locked : HasLock txid vout since (classify_young net snapshot now db).spent =
        rw classify_young-spent h in
      let after = reconcile-HasLock txid vout snapshot.utxos since now _ held locked in
      rw (spendable_utxos-some net snapshot script now db answered)
        (after, view_of script snapshot _, refl, offered-without script snapshot _ after.present)

-- Where the explorers answer, the input of a transaction whose inputs were marked as spent is not
-- offered for half an hour after, nor for a day while the explorers still list it as unspent, and
-- its lock is still there for the next call.
pub spent_input_not_offered :
    (built : BuiltTx) (since : ℕ) (db : Db) (net : Network) (snapshot : Snapshot) (script : String)
    (now : ℕ) (txid : String) (vout : ℕ)
    → any (outpoint_at txid vout) built.inputs ≡ true
    → net.utxos ≡ some snapshot
    → IsHeld txid vout snapshot.utxos since now
    → let (db', view) = spendable_utxos net script now (lock_inputs built since db) in
      HasLock txid vout since db'.spent
      × (v : Snapshot) × (view ≡ some v)
      × All (λ u. coin_at txid vout u ≡ false) v.utxos
unfolding lock_inputs
spent_input_not_offered built since db net snapshot script now txid vout input answered held =
    spendable_utxos-HasLock txid vout net snapshot script since now _ answered held
      (lock_outpoints_lem txid vout built.inputs since db.spent input)
