-- ===== src/Treasury/Broadcast.antt =====
-- `settleBroadcast` of src/treasury.ts: whether a transaction is on the network.
pub mod Outcome
use dash_faucet_cf.Base.{
  ℕ, String, Bool, true, false, ◌||◌, none, some, List, [], ◌∷◌, if◌then◌else◌,
}
use dash_faucet_cf.Base.Text.{codes, contains_lower, join}
use dash_faucet_cf.Db.{Db}
use dash_faucet_cf.Tx.{BuiltTx}
use dash_faucet_cf.Treasury.{Network, BroadcastResult}
use dash_faucet_cf.Treasury.Ledger.{lock_inputs}

-- Why a broadcast did not settle: the three details of the code's results.
pub data Refusal : Type 0 where
  not_confirmed stale_view relays_rejected : Refusal

-- `BroadcastSettlement`; `threw` is an exception of the chain client.
pub data Settlement : Type 0 where
  settled : List String → Settlement
  unsettled : Bool → Refusal → Settlement
  threw : Settlement

abbrev pub is_empty {ℓ} : {A : Type ℓ} → List A → Bool
is_empty [] = true
is_empty (x ∷ xs) = false

-- `/missing inputs|inputs-missingorspent|bad-txns-inputs/i`
unfoldable pub names_missing_inputs : List ℕ → Bool
names_missing_inputs detail =
    contains_lower (codes "missing inputs") detail
    || (contains_lower (codes "inputs-missingorspent") detail
        || contains_lower (codes "bad-txns-inputs") detail)

-- Every relay refused the transaction outright.
unfoldable pub settle_rejected : BuiltTx → ℕ → BroadcastResult → Db → Db × Settlement
settle_rejected built now result db =
    if names_missing_inputs (join (codes " | ") result.rejected)
    then (lock_inputs built now db, unsettled false stale_view)
    else (db, unsettled false relays_rejected)

-- Whether another node has seen the transaction, after an ambiguous second attempt.
unfoldable pub settle_silent : Network → BuiltTx → ℕ → Db → Db × Settlement
settle_silent net built now db = elim (net.any_knows_tx built.txid) [
  | some true ↦ (db, settled ("observed on-chain" ∷ []))
  | some false ↦ (lock_inputs built now db, unsettled true not_confirmed)
  | none ↦ (lock_inputs built now db, unsettled true not_confirmed)
]

-- The second attempt, with the same bytes.
unfoldable pub settle_again : Network → BuiltTx → ℕ → Db → Db × Settlement
settle_again net built now db = elim (net.rebroadcast built.txid) [
  | none ↦ (db, threw)
  | some again ↦
      if is_empty again.accepted
      then settle_silent net built now db
      else (db, settled again.accepted)
]

unfoldable pub settle_broadcast : Network → BuiltTx → ℕ → Db → Db × Settlement
settle_broadcast net built now db = elim (net.broadcast built.txid) [
  | none ↦ (db, threw)
  | some result ↦
      if is_empty result.accepted
      then (if is_empty result.ambiguous
          then settle_rejected built now result db
          else settle_again net built now db)
      else (db, settled result.accepted)
]
