-- ===== src/Tx/Build.antt =====
-- The builders of src/tx.ts: a payout, a split, a merge and an invitation's asset lock.
pub mod Payload
pub mod Pays
pub mod Merges
pub mod AssetLock
pub mod Splits
use dash_faucet_cf.Base.{
  ℕ, zero, suc, ◌+◌, ◌-◌, ◌*◌, ◌/◌, String, Bool, true, false, not, Option, none, some, List, [],
  ◌∷◌, ◌++◌, map, ltb, leb, ◌==◌, same, if◌then◌else◌, length, filter, find, total,
}
use dash_faucet_cf.Base.Int.{sub_ℕ}
use dash_faucet_cf.Base.Sort.{sort}
use dash_faucet_cf.Tx.{
  Utxo, Outpoint, OwnOutput, BuiltTx, insufficient_funds, too_fragmented, self_pay, refused, Result,
  ok, err, ◌>>=◌, ◌>>◌, throw_if, or_throw, FaucetKey, TxInput, TxOutput, Draft, Signed, DashTx,
  fee_ceiling, to_tx_input, sats,
}
use dash_faucet_cf.Tx.Select.{select_inputs}

-- `output.pubKeyHash === hash`
abbrev pub pays_to : String → TxOutput → Bool
pays_to hash o = elim (o.pub_key_hash) [ none ↦ false | some h ↦ same h hash ]

abbrev pub output_sats : TxOutput → ℕ
output_sats o = o.satoshis

-- The loop of `finish` over the outputs from position `i` on.
unfoldable pub own_from : String → String → ℕ → List TxOutput → List OwnOutput
own_from hash txid i [] = []
own_from hash txid i (o ∷ os) =
    if pays_to hash o
    then record { txid = txid; output_index = i; satoshis = o.satoshis }
      ∷ own_from hash txid (i + 1) os
    else own_from hash txid (i + 1) os

abbrev pub to_outpoint : TxInput → Outpoint
to_outpoint i = record { txid = i.txid; output_index = i.output_index }

unfoldable pub finish : DashTx → Signed → FaucetKey → ℕ → BuiltTx
unfolding own_from
finish lib signed key total_in =
    let txid = lib.get_id signed.transaction in
    record {
      hex = signed.transaction;
      txid = txid;
      inputs = map to_outpoint signed.inputs;
      own_outputs = own_from key.pub_key_hash txid 0 signed.outputs;
      fee = sub_ℕ total_in (total output_sats signed.outputs);
      total_in = total_in;
    }

-- An output of plain value.
abbrev pub pay_to : String → ℕ → TxOutput
pay_to hash satoshis = record {
  satoshis = satoshis;
  pub_key_hash = some hash;
  address = none;
  memo = none;
}

-- `draft.change.pubKeyHash = hash; delete draft.change.address`, at the position of the change.
unfoldable pub readdress : String → ℕ → List TxOutput → List TxOutput
readdress hash i [] = []
readdress hash zero (o ∷ os) = record o { pub_key_hash = some hash; address = none } ∷ os
readdress hash (suc i) (o ∷ os) = o ∷ readdress hash i os

abbrev pub own_change : FaucetKey → Draft → List TxOutput
own_change key draft = elim (draft.change) [
  | none ↦ draft.outputs
  | some i ↦ readdress key.pub_key_hash i draft.outputs
]

-- `selected.length > maxInputs`, with `none` for Infinity
abbrev pub exceeds : ℕ → Option ℕ → Bool
exceeds n max_inputs = elim max_inputs [ none ↦ false | some m ↦ ltb m n ]

-- `!paid || paid.satoshis !== satoshis`
abbrev pub mispaid : String → ℕ → Signed → Bool
mispaid hash satoshis signed = elim (find (pays_to hash) signed.outputs) [
  | none ↦ true
  | some o ↦ not (o.satoshis == satoshis)
]

unfoldable pub build_payout :
    DashTx → FaucetKey → List Utxo → String → ℕ → Option ℕ → Result BuiltTx
unfolding readdress
build_payout lib key utxos recipient satoshis max_inputs = do
  throw_if (same recipient key.pub_key_hash) self_pay
  selected ← select_inputs lib utxos satoshis 2 0
  throw_if (exceeds (length selected) max_inputs)
      (too_fragmented (length selected) (elim max_inputs [ none ↦ 0 | some m ↦ m ]))
  draft ← or_throw (
      lib.draft_single_output (map to_tx_input utxos) (map to_tx_input selected)
        (pay_to recipient satoshis))
  let inputs = sort lib.input_before draft.inputs
  let outputs = sort lib.output_before (own_change key draft)
  signed ← or_throw (lib.finalize_presorted draft inputs outputs)
  throw_if (mispaid recipient satoshis signed) refused
  ok (finish lib signed key (lib.sum inputs))

-- The change output, or none where it would be dust; a negative change throws.
unfoldable pub with_change : DashTx → FaucetKey → ℕ → ℕ → List TxOutput → Result (List TxOutput)
with_change lib key total_in needed outputs =
    if ltb (needed + lib.legacy_dust) total_in
    then ok (outputs ++ pay_to key.pub_key_hash (total_in - needed) ∷ [])
    else if ltb total_in needed
    then err (insufficient_funds total_in needed)
    else ok outputs

unfoldable pub equal_outputs : ℕ → TxOutput → List TxOutput
equal_outputs zero o = []
equal_outputs (suc n) o = o ∷ equal_outputs n o

unfoldable pub build_split : DashTx → FaucetKey → List Utxo → ℕ → ℕ → Result BuiltTx
unfolding with_change equal_outputs
build_split lib key utxos count per_output = do
  throw_if (ltb count 2) refused
  let target = count * per_output
  selected ← select_inputs lib utxos target (count + 1) 0
  let total_in = total sats selected
  let fee = fee_ceiling lib (length selected) (count + 1) 0
  outputs ←
      with_change lib key total_in (target + fee)
        (equal_outputs count (pay_to key.pub_key_hash per_output))
  signed ← or_throw (
      lib.hash_and_sign_all record {
        version = 0;
        type = 0;
        inputs = sort lib.input_before (map to_tx_input selected);
        outputs = sort lib.output_before outputs;
        extra_payload = none;
      })
  let built = finish lib signed key total_in
  throw_if (ltb (length (filter (λ o. o.satoshis == per_output) built.own_outputs)) count) refused
  ok built

-- `ownOutputs.length !== 1 || ownOutputs[0].satoshis !== merged`
abbrev pub one_coin_of : ℕ → List OwnOutput → Bool
one_coin_of merged [] = false
one_coin_of merged (o ∷ []) = o.satoshis == merged
one_coin_of merged (o ∷ p ∷ os) = false

unfoldable pub build_consolidation : DashTx → FaucetKey → List Utxo → Result BuiltTx
build_consolidation lib key coins = do
  throw_if (ltb (length coins) 2) refused
  let total_in = total sats coins
  let fee = fee_ceiling lib (length coins) 1 0
  throw_if (leb total_in (fee + lib.legacy_dust)) (insufficient_funds total_in fee)
  signed ← or_throw (
      lib.hash_and_sign_all record {
        version = 0;
        type = 0;
        inputs = sort lib.input_before (map to_tx_input coins);
        outputs = pay_to key.pub_key_hash (total_in - fee) ∷ [];
        extra_payload = none;
      })
  let built = finish lib signed key total_in
  throw_if (not (one_coin_of (total_in - fee) built.own_outputs)) refused
  ok built
