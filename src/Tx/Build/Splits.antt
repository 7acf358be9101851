-- ===== src/Tx/Build/Splits.antt =====
-- What `buildSplit` of src/tx.ts guarantees of a transaction that it returns, and that every own
-- output of a transaction is one of its outputs to the faucet.
use dash_faucet_cf.Base.{
  ℕ, zero, suc, ◌+◌, ◌*◌, ◌≤◌, ◌≡◌, refl, sym, ◌∙◌, String, Bool, true, Option, none, some, List,
  [], ◌∷◌, map, ltb, ◌==◌, length, filter, total, arith, Bool-cases, inl, inr, ltb_false→le, All,
  All-map, subst,
}
use dash_faucet_cf.Base.Sort.{sort}
use dash_faucet_cf.Tx.{
  Utxo, OwnOutput, BuiltTx, refused, Result, ok, ◌>>=◌, ◌>>◌, throw_if, or_throw, FaucetKey,
  TxOutput, SigningRequest, Signed, DashTx, fee_ceiling, to_tx_input, sats,
}
use dash_faucet_cf.Tx.Select.{select_inputs, required_for}
use dash_faucet_cf.Tx.Select.Covers.{Covers, select_inputs-Covers}
use dash_faucet_cf.Tx.Build.{
  pays_to, own_from, finish, pay_to, with_change, equal_outputs, build_split,
}
use dash_faucet_cf.Tx.Build.Pays.{bind-ok, throw_if-ok, ok-injective, or_throw-some}

-- The output at a position.
abbrev output_at : List TxOutput → ℕ → Option TxOutput
output_at [] i = none
output_at (o ∷ os) zero = some o
output_at (o ∷ os) (suc i) = output_at os i

-- The own output is an output of the transaction to the faucet, at its position and of its amount.
abbrev pub IsOutputOf : String → String → List TxOutput → OwnOutput → Type 0
IsOutputOf hash txid outputs own =
    (own.txid ≡ txid)
    × (o : TxOutput) × (output_at outputs own.output_index ≡ some o)
    × (pays_to hash o ≡ true)
    × (o.satoshis ≡ own.satoshis)

-- The same, counted from `i` on.
abbrev IsOutputFrom : String → String → ℕ → List TxOutput → OwnOutput → Type 0
IsOutputFrom hash txid i outputs own =
    (own.txid ≡ txid)
    × (n : ℕ) × (own.output_index ≡ i + n)
    × (o : TxOutput) × (output_at outputs n ≡ some o)
    × (pays_to hash o ≡ true)
    × (o.satoshis ≡ own.satoshis)

own_from-IsOutputFrom :
    (hash txid : String) (i : ℕ) (outputs : List TxOutput)
    → All (IsOutputFrom hash txid i outputs) (own_from hash txid i outputs)
unfolding own_from
own_from-IsOutputFrom hash txid i [] = tt
own_from-IsOutputFrom hash txid i (o ∷ os) =
    let later =
      All-map (step) (own_from hash txid (i + 1) os) (own_from-IsOutputFrom hash txid (i + 1) os) in
    elim (Bool-cases (pays_to hash o)) [
      | inl ours ↦ rw ours ((refl, zero, omega arith, o, refl, ours, refl), later)
      | inr other ↦ rw other later
    ]
  where
    step :
        (own : OwnOutput)
        → IsOutputFrom hash txid (i + 1) os own
        → IsOutputFrom hash txid i (o ∷ os) own
    step own (same_tx, n, at, x, found, pays, amount) =
        (same_tx, suc n, omega (arith, at), x, found, pays, amount)

abbrev pub split_request : DashTx → List Utxo → List TxOutput → SigningRequest
split_request lib selected outputs = record {
  version = 0;
  type = 0;
  inputs = sort lib.input_before (map to_tx_input selected);
  outputs = sort lib.output_before outputs;
  extra_payload = none;
}

abbrev pub changed_outputs : DashTx → FaucetKey → ℕ → ℕ → List Utxo → Result (List TxOutput)
changed_outputs lib key count per_output selected =
    with_change lib key (total sats selected)
      (count * per_output + fee_ceiling lib (length selected) (count + 1) 0)
      (equal_outputs count (pay_to key.pub_key_hash per_output))

-- A split that was built: its coins, the transaction that was signed for just these coins, and
-- the coins that it makes for the pool.
pub record IsSplit (lib : DashTx) (key : FaucetKey) (utxos : List Utxo) (count per_output : ℕ)
    (built : BuiltTx) : Type 0 where
  pub selected : List Utxo
  pub outputs : List TxOutput
  pub signed : Signed
  pub several : 2 ≤ count
  pub covers : Covers (required_for lib (count * per_output) (count + 1) 0) utxos selected
  pub changed : changed_outputs lib key count per_output selected ≡ ok outputs
  pub signs : lib.hash_and_sign_all (split_request lib selected outputs) ≡ some signed
  pub read : built ≡ finish lib signed key (total sats selected)
  pub enough_coins : count ≤ length (filter (λ o. o.satoshis == per_output) built.own_outputs)
  pub own : All (IsOutputOf key.pub_key_hash built.txid signed.outputs) built.own_outputs

abbrev too_few : ℕ → ℕ → BuiltTx → Bool
too_few count per_output built =
    ltb (length (filter (λ o. o.satoshis == per_output) built.own_outputs)) count

-- The rest of `buildSplit` after the signature, after the change and after the choice of the coins.
abbrev with_signed : DashTx → FaucetKey → ℕ → ℕ → List Utxo → Signed → Result BuiltTx
with_signed lib key count per_output selected signed =
    throw_if (too_few count per_output (finish lib signed key (total sats selected))) refused
    >> ok (finish lib signed key (total sats selected))

abbrev with_outputs : DashTx → FaucetKey → ℕ → ℕ → List Utxo → List TxOutput → Result BuiltTx
with_outputs lib key count per_output selected outputs =
    or_throw (lib.hash_and_sign_all (split_request lib selected outputs))
    >>= with_signed lib key count per_output selected

abbrev with_selected : DashTx → FaucetKey → ℕ → ℕ → List Utxo → Result BuiltTx
with_selected lib key count per_output selected =
    changed_outputs lib key count per_output selected
    >>= with_outputs lib key count per_output selected

zero_add : (n : ℕ) → 0 + n ≡ n
zero_add n = omega arith

finish-own :
    (lib : DashTx) (signed : Signed) (key : FaucetKey) (total_in : ℕ)
    → All
        (IsOutputOf key.pub_key_hash (finish lib signed key total_in).txid signed.outputs)
        (finish lib signed key total_in).own_outputs
unfolding finish own_from
finish-own lib signed key total_in =
    let txid = lib.get_id signed.transaction in
    All-map
      (λ own (same_tx, n, at, x, found, pays, amount). (
        same_tx,
        x,
        subst (λ i. output_at signed.outputs i ≡ some x) (sym (at ∙ zero_add n)) found,
        pays,
        amount,
      ))
      (own_from key.pub_key_hash txid 0 signed.outputs)
      (own_from-IsOutputFrom key.pub_key_hash txid 0 signed.outputs)

-- A split that is built is of at least two outputs, selects coins that cover them with the fee, is
-- signed with just these coins as its inputs, and has at least that many own outputs of the
-- amount; and every own output is an output of the signed transaction to the faucet, at its
-- position and of its amount.
pub build_split-IsSplit :
    (lib : DashTx) (key : FaucetKey) (utxos : List Utxo) (count per_output : ℕ) (built : BuiltTx)
    → build_split lib key utxos count per_output ≡ ok built
    → IsSplit lib key utxos count per_output built
unfolding build_split
build_split-IsSplit lib key utxos count per_output built e =
    let (several, e1) = throw_if-ok (ltb count 2) refused _ built e in
    let (selected, picked, e2) =
      bind-ok (select_inputs lib utxos (count * per_output) (count + 1) 0)
        (with_selected lib key count per_output) built e1 in
    let (outputs, changed, e3) =
      bind-ok (changed_outputs lib key count per_output selected)
        (with_outputs lib key count per_output selected) built e2 in
    let (signed, signs, e4) =
      bind-ok (or_throw (lib.hash_and_sign_all (split_request lib selected outputs)))
        (with_signed lib key count per_output selected) built e3 in
    let (plenty, e5) =
      throw_if-ok (too_few count per_output (finish lib signed key (total sats selected))) refused _
        built e4 in
    let read : built ≡ finish lib signed key (total sats selected) =
      sym (ok-injective (finish lib signed key (total sats selected)) built e5) in
    record {
      selected = selected;
      outputs = outputs;
      signed = signed;
      changed = changed;
      signs = or_throw-some _ signed signs;
      several = ltb_false→le count 2 several;
      covers = select_inputs-Covers lib utxos selected (count * per_output) (count + 1) 0 picked;
      read = read;
      enough_coins =
          subst (λ b. count ≤ length (filter (λ o. o.satoshis == per_output) b.own_outputs))
            (sym read) (ltb_false→le _ count plenty);
      own =
          subst (λ b. All (IsOutputOf key.pub_key_hash b.txid signed.outputs) b.own_outputs)
            (sym read) (finish-own lib signed key (total sats selected));
    }
