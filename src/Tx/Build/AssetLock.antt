-- ===== src/Tx/Build/AssetLock.antt =====
-- `buildInvitationAssetLock` of src/tx.ts: the transaction that funds an invitation voucher, and what
-- holds of one that is returned.
use dash_faucet_cf.Base.{
  ℕ, ◌+◌, ◌/◌, ◌≡◌, refl, sym, Bool, true, false, ◌&&◌, not, none, some, List, [], ◌∷◌, map, ◌==◌,
  same, length, find, total, arith, Bool-cases, Option-cases, inl, inr, equal→path, subst, ap, ◌∙◌,
}
use mathlib.Core.Path.{ap₂}
use dash_faucet_cf.Db.Sql.{find-cons_hit, find-cons_miss}
use dash_faucet_cf.Base.Sort.{sort}
use dash_faucet_cf.Tx.{
  Utxo, BuiltTx, refused, Result, ok, ◌>>=◌, ◌>>◌, throw_if, or_throw, FaucetKey, TxOutput,
  SigningRequest, Signed, DashTx, fee_ceiling, to_tx_input, sats,
}
use dash_faucet_cf.Tx.Select.{select_inputs, required_for}
use dash_faucet_cf.Tx.Select.Covers.{Covers, select_inputs-Covers}
use dash_faucet_cf.Tx.Build.{finish, with_change}
use dash_faucet_cf.Tx.Build.Payload.{asset_lock_payload}
use dash_faucet_cf.Tx.Build.Pays.{bind-ok, throw_if-ok, ok-injective, or_throw-some}

-- The output that burns the satoshis into the asset lock.
abbrev pub burn_of : ℕ → TxOutput
burn_of satoshis = record {
  satoshis = satoshis;
  pub_key_hash = none;
  address = none;
  memo = some "";
}

-- `output.memo === "" && output.satoshis === satoshis`
abbrev pub is_burn : ℕ → TxOutput → Bool
is_burn satoshis o = (elim (o.memo) [ none ↦ false | some m ↦ same m "" ]) && o.satoshis == satoshis

-- `===` on two payloads.
abbrev pub same_payload : List ℕ → List ℕ → Bool
same_payload [] [] = true
same_payload [] (b ∷ bs) = false
same_payload (a ∷ as_) [] = false
same_payload (a ∷ as_) (b ∷ bs) = a == b && same_payload as_ bs

abbrev pub carries : List ℕ → Signed → Bool
carries payload signed = elim (signed.extra_payload) [
  | none ↦ false
  | some p ↦ same_payload p payload
]

-- `!burn || signed.extraPayload !== extraPayload`
abbrev pub malformed : ℕ → List ℕ → Signed → Bool
malformed satoshis payload signed = elim (find (is_burn satoshis) signed.outputs) [
  | none ↦ true
  | some o ↦ not (carries payload signed)
]

unfoldable pub build_invitation_asset_lock :
    DashTx → FaucetKey → List Utxo → List ℕ → ℕ → Result BuiltTx
build_invitation_asset_lock lib key utxos voucher_public_key_hash satoshis = do
  payload ← asset_lock_payload voucher_public_key_hash satoshis
  selected ← select_inputs lib utxos satoshis 2 (length payload / 2)
  let total_in = total sats selected
  let fee = fee_ceiling lib (length selected) 2 (length payload / 2)
  outputs ← with_change lib key total_in (satoshis + fee) (burn_of satoshis ∷ [])
  signed ← or_throw (
      lib.hash_and_sign_all record {
        version = 3;
        type = 8;
        inputs = sort lib.input_before (map to_tx_input selected);
        outputs = sort lib.output_before outputs;
        extra_payload = some payload;
      })
  throw_if (malformed satoshis payload signed) refused
  ok (finish lib signed key total_in)

-- The payload is the one that was asked for, and an output burns the satoshis.
abbrev pub LocksExactly : ℕ → List ℕ → Signed → Type 0
LocksExactly satoshis payload signed =
    (signed.extra_payload ≡ some payload)
    × (o : TxOutput) × (find (is_burn satoshis) signed.outputs ≡ some o)
    × (o.satoshis ≡ satoshis)

same_payload-path : (as_ bs : List ℕ) → same_payload as_ bs ≡ true → as_ ≡ bs
same_payload-path [] [] h = refl
same_payload-path [] (b ∷ bs) h = absurd (cc)
same_payload-path (a ∷ as_) [] h = absurd (cc)
same_payload-path (a ∷ as_) (b ∷ bs) h =
    ap₂ (λ x xs. x ∷ xs) (equal→path a b (ground arith)) (same_payload-path as_ bs (ground arith))

carries-path :
    (payload : List ℕ) (signed : Signed)
    → carries payload signed ≡ true
    → signed.extra_payload ≡ some payload
carries-path payload signed h = elim (Option-cases signed.extra_payload) [
  | inl missing ↦ absurd (ground arith)
  | inr (p, given) ↦ given ∙ ap some (same_payload-path p payload (ground arith))
]

found-holds :
    (p : TxOutput → Bool) (os : List TxOutput) (o : TxOutput) → find p os ≡ some o → p o ≡ true
found-holds p [] o h = absurd (cc)
found-holds p (x ∷ os) o h = elim (Bool-cases (p x)) [
  | inl holds ↦ subst (λ z. p z ≡ true) (find-cons_hit p x os o holds h) holds
  | inr fails ↦ found-holds p os o (find-cons_miss p x os o fails h)
]

malformed-LocksExactly :
    (satoshis : ℕ) (payload : List ℕ) (signed : Signed)
    → malformed satoshis payload signed ≡ false
    → LocksExactly satoshis payload signed
malformed-LocksExactly satoshis payload signed h =
    elim (Option-cases (find (is_burn satoshis) signed.outputs)) [
      | inl missing ↦ absurd (ground arith)
      | inr (o, found) ↦
          let holds : is_burn satoshis o ≡ true = found-holds _ signed.outputs o found in
          (
            carries-path payload signed (ground arith),
            o,
            found,
            equal→path o.satoshis satoshis (ground arith),
          )
    ]

abbrev pub lock_request : DashTx → List Utxo → List ℕ → List TxOutput → SigningRequest
lock_request lib selected payload outputs = record {
  version = 3;
  type = 8;
  inputs = sort lib.input_before (map to_tx_input selected);
  outputs = sort lib.output_before outputs;
  extra_payload = some payload;
}

abbrev pub lock_fee : DashTx → List Utxo → List ℕ → ℕ
lock_fee lib selected payload = fee_ceiling lib (length selected) 2 (length payload / 2)

-- An asset lock that was built: its coins, its payload, and the transaction that was signed for just
-- these coins, from which its fields were read.
pub record IsAssetLock (lib : DashTx) (key : FaucetKey) (utxos : List Utxo) (hash : List ℕ)
    (satoshis : ℕ) (built : BuiltTx) : Type 0 where
  pub payload : List ℕ
  pub selected : List Utxo
  pub outputs : List TxOutput
  pub signed : Signed
  pub pays_voucher : asset_lock_payload hash satoshis ≡ ok payload
  pub covers : Covers (required_for lib satoshis 2 (length payload / 2)) utxos selected
  pub changed :
      with_change lib key
        (total sats selected)
        (satoshis + lock_fee lib selected payload)
        (burn_of satoshis ∷ [])
      ≡ ok outputs
  pub signs : lib.hash_and_sign_all (lock_request lib selected payload outputs) ≡ some signed
  pub locks : LocksExactly satoshis payload signed
  pub read : built ≡ finish lib signed key (total sats selected)

-- The rest of `buildInvitationAssetLock` after the signature, after the change and after the choice
-- of the coins.
abbrev with_signed : DashTx → FaucetKey → List Utxo → List ℕ → ℕ → Signed → Result BuiltTx
with_signed lib key selected payload satoshis signed =
    throw_if (malformed satoshis payload signed) refused
    >> ok (finish lib signed key (total sats selected))

abbrev with_outputs : DashTx → FaucetKey → List Utxo → List ℕ → ℕ → List TxOutput → Result BuiltTx
with_outputs lib key selected payload satoshis outputs =
    or_throw (lib.hash_and_sign_all (lock_request lib selected payload outputs))
    >>= with_signed lib key selected payload satoshis

abbrev with_selected : DashTx → FaucetKey → List ℕ → ℕ → List Utxo → Result BuiltTx
with_selected lib key payload satoshis selected =
    with_change lib key (total sats selected) (satoshis + lock_fee lib selected payload)
      (burn_of satoshis ∷ [])
    >>= with_outputs lib key selected payload satoshis

abbrev with_payload : DashTx → FaucetKey → List Utxo → ℕ → List ℕ → Result BuiltTx
with_payload lib key utxos satoshis payload =
    select_inputs lib utxos satoshis 2 (length payload / 2)
    >>= with_selected lib key payload satoshis

-- An asset lock that is built has the payload for its voucher, selects coins that cover the amount
-- and the fee with that payload, is signed with just these coins as its inputs, and its signed
-- transaction carries this payload and has an output that burns exactly the amount.
pub build_invitation_asset_lock-IsAssetLock :
    (lib : DashTx) (key : FaucetKey) (utxos : List Utxo) (hash : List ℕ) (satoshis : ℕ)
    (built : BuiltTx)
    → build_invitation_asset_lock lib key utxos hash satoshis ≡ ok built
    → IsAssetLock lib key utxos hash satoshis built
unfolding build_invitation_asset_lock
build_invitation_asset_lock-IsAssetLock lib key utxos hash satoshis built e =
    let (payload, paid, e1) =
      bind-ok (asset_lock_payload hash satoshis) (with_payload lib key utxos satoshis) built e in
    let (selected, picked, e2) =
      bind-ok (select_inputs lib utxos satoshis 2 (length payload / 2))
        (with_selected lib key payload satoshis) built e1 in
    let (outputs, changed, e3) =
      bind-ok
        (with_change lib key (total sats selected) (satoshis + lock_fee lib selected payload)
          (burn_of satoshis ∷ []))
        (with_outputs lib key selected payload satoshis) built e2 in
    let (signed, signs, e4) =
      bind-ok (or_throw (lib.hash_and_sign_all (lock_request lib selected payload outputs)))
        (with_signed lib key selected payload satoshis) built e3 in
    let (well_formed, e5) = throw_if-ok (malformed satoshis payload signed) refused _ built e4 in
    record {
      payload = payload;
      selected = selected;
      outputs = outputs;
      signed = signed;
      pays_voucher = paid;
      changed = changed;
      signs = or_throw-some _ signed signs;
      covers = select_inputs-Covers lib utxos selected satoshis 2 (length payload / 2) picked;
      locks = malformed-LocksExactly satoshis payload signed well_formed;
      read = sym (ok-injective (finish lib signed key (total sats selected)) built e5);
    }
