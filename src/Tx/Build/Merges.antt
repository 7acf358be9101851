-- ===== src/Tx/Build/Merges.antt =====
-- What `buildConsolidation` of src/tx.ts does with a wallet's coins, where the signer returns what it
-- is given.
use dash_faucet_cf.Base.{
  ℕ, ◌+◌, ◌-◌, ◌≤◌, ◌<◌, ◌≡◌, refl, sym, ap, ◌∙◌, subst, false, not, none, some, List, [], ◌∷◌, map,
  arith, ltb, leb, same_refl, equal_refl, lt→leb_false, length, total, Perm,
}
use mathlib.Core.List.Perm
use dash_faucet_cf.Base.Int.{pos, sub_ℕ}
use dash_faucet_cf.Base.Sort.{sort, sort-perm}
use dash_faucet_cf.Tx.{
  Utxo, BuiltTx, refused, Result, ok, ◌>>◌, throw_if, FaucetKey, SigningRequest, Signed, DashTx,
  to_tx_input, fee_ceiling, sats,
}
use dash_faucet_cf.Tx.Build.{
  own_from, to_outpoint, finish, pay_to, one_coin_of, build_consolidation,
}

-- `hashAndSignAll` signs what it is asked to sign.
abbrev pub IsFaithful : DashTx → Type 0
IsFaithful lib =
    (r : SigningRequest)
    → (signed : Signed) × (lib.hash_and_sign_all r ≡ some signed)
      × (signed.inputs ≡ r.inputs)
      × (signed.outputs ≡ r.outputs)

abbrev merge_request : DashTx → FaucetKey → List Utxo → SigningRequest
merge_request lib key coins = record {
  version = 0;
  type = 0;
  inputs = sort lib.input_before (map to_tx_input coins);
  outputs = pay_to key.pub_key_hash (total sats coins - fee_ceiling lib (length coins) 1 0) ∷ [];
  extra_payload = none;
}

abbrev with_merge : DashTx → FaucetKey → List Utxo → Signed → Result BuiltTx
with_merge lib key coins signed =
    throw_if
      (not (
        one_coin_of (total sats coins - fee_ceiling lib (length coins) 1 0)
          (finish lib signed key (total sats coins)).own_outputs))
      refused
    >> ok (finish lib signed key (total sats coins))

-- A merge of the coins: one coin of everything but the fee.
pub record IsMerge (lib : DashTx) (key : FaucetKey) (coins : List Utxo) (built : BuiltTx)
    : Type 0 where
  pub one_coin :
      built.own_outputs
      ≡ record {
        txid = built.txid;
        output_index = 0;
        satoshis = total sats coins - fee_ceiling lib (length coins) 1 0;
      }
        ∷ []
  pub spends : Perm built.inputs (map to_outpoint (map to_tx_input coins))
  pub at_ceiling : built.fee ≡ pos (fee_ceiling lib (length coins) 1 0)
  pub all_in : built.total_in ≡ total sats coins

rest_lem : (t f : ℕ) → f ≤ t → t - (t - f + 0) ≡ f
rest_lem t f h = omega (arith, h)

sub_ℕ-rest : (t f : ℕ) → f ≤ t → sub_ℕ t (t - f + 0) ≡ pos f
sub_ℕ-rest t f h = ground (arith, rest_lem t f h)

finish-IsMerge :
    (lib : DashTx) (key : FaucetKey) (coins : List Utxo) (signed : Signed)
    → signed.inputs ≡ (merge_request lib key coins).inputs
    → signed.outputs ≡ (merge_request lib key coins).outputs
    → fee_ceiling lib (length coins) 1 0 ≤ total sats coins
    → IsMerge lib key coins (finish lib signed key (total sats coins))
unfolding finish own_from
finish-IsMerge lib key coins signed inputs outputs enough = record {
  one_coin =
      ap (own_from key.pub_key_hash (lib.get_id signed.transaction) 0) outputs
      ∙ rw (same_refl key.pub_key_hash) refl;
  spends =
      subst (λ xs. Perm (map to_outpoint xs) (map to_outpoint (map to_tx_input coins))) (sym inputs)
        (Perm.map to_outpoint (sort-perm lib.input_before (map to_tx_input coins)));
  at_ceiling =
      ap (λ os. sub_ℕ (total sats coins) (total (λ o. o.satoshis) os)) outputs
      ∙ sub_ℕ-rest (total sats coins) (fee_ceiling lib (length coins) 1 0) enough;
  all_in = refl;
}

with_merge-IsMerge :
    (lib : DashTx) (key : FaucetKey) (coins : List Utxo) (signed : Signed)
    → IsMerge lib key coins (finish lib signed key (total sats coins))
    → with_merge lib key coins signed ≡ ok (finish lib signed key (total sats coins))
with_merge-IsMerge lib key coins signed h =
    ap
      (λ os.
        throw_if (not (one_coin_of (total sats coins - fee_ceiling lib (length coins) 1 0) os))
          refused
        >> ok (finish lib signed key (total sats coins)))
      h.one_coin
    ∙ rw (equal_refl (total sats coins - fee_ceiling lib (length coins) 1 0)) refl

-- Where the signer returns what it is given, a merge of at least two coins that are worth more
-- than the fee and dust is built: it spends exactly these coins, pays the fee ceiling for them,
-- and makes one coin of all the rest.
pub build_consolidation-IsMerge :
    (lib : DashTx) (key : FaucetKey) (coins : List Utxo)
    → IsFaithful lib
    → 2 ≤ length coins
    → fee_ceiling lib (length coins) 1 0 + lib.legacy_dust < total sats coins
    → (built : BuiltTx) × (build_consolidation lib key coins ≡ ok built)
      × IsMerge lib key coins built
unfolding build_consolidation
build_consolidation-IsMerge lib key coins faithful many enough =
    let (signed, signs, inputs, outputs) = faithful (merge_request lib key coins) in
    let merged = finish-IsMerge lib key coins signed inputs outputs (omega (arith, enough)) in
    let pair : ltb (length coins) 2 ≡ false = ground arith in
    let worth : leb (total sats coins) (fee_ceiling lib (length coins) 1 0 + lib.legacy_dust)
        ≡ false =
      lt→leb_false _ _ enough in
    (
      finish lib signed key (total sats coins),
      rw (pair, worth, signs) (with_merge-IsMerge lib key coins signed merged),
      merged,
    )
