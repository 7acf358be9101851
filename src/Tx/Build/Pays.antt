-- ===== src/Tx/Build/Pays.antt =====
-- What `buildPayout` of src/tx.ts guarantees of a transaction that it returns.
use dash_faucet_cf.Base.{
  none, ℕ, ◌≤◌, ◌≡◌, ◌≢◌, refl, sym, ap, subst, inl, inr, String, Bool, true, false, Option, some,
  List, map, arith, Option-cases, same, same_refl, ltb_false→le, length, find,
}
use dash_faucet_cf.Base.Sort.{sort}
use dash_faucet_cf.Tx.{
  Utxo, BuiltTx, TxError, self_pay, refused, Result, ok, err, ◌>>=◌, ◌>>◌, throw_if, or_throw,
  FaucetKey, TxInput, TxOutput, Draft, Signed, DashTx, to_tx_input,
}
use dash_faucet_cf.Tx.Select.{select_inputs, required_for}
use dash_faucet_cf.Tx.Select.Covers.{Covers, select_inputs-Covers}
use dash_faucet_cf.Tx.Build.{pays_to, finish, pay_to, own_change, exceeds, mispaid, build_payout}

module _ {A B : Type 0} where
  pub bind-ok :
      (m : Result A) (f : A → Result B) (b : B)
      → (m >>= f) ≡ ok b
      → (a : A) × (m ≡ ok a) × (f a ≡ ok b)
  bind-ok (ok a) f b h = (a, refl, h)
  bind-ok (err e) f b h = absurd (cc)

pub ok-injective : {A : Type 0} (a b : A) → ok a ≡ ok b → a ≡ b
ok-injective a b h = ap (λ r. elim r [ ok x ↦ x | err e ↦ a ]) h

pub throw_if-ok :
    {B : Type 0} (c : Bool) (e : TxError) (k : Result B) (b : B)
    → (throw_if c e >> k) ≡ ok b
    → (c ≡ false) × (k ≡ ok b)
throw_if-ok true e k b h = absurd (cc)
throw_if-ok false e k b h = (refl, h)

pub or_throw-some : {A : Type 0} (o : Option A) (a : A) → or_throw o ≡ ok a → o ≡ some a
or_throw-some none a h = absurd (cc)
or_throw-some (some b) a h = ap some (ok-injective b a h)

-- The transaction pays the recipient: a signed transaction's output to them has the amount.
abbrev pub PaysExactly : String → ℕ → Signed → Type 0
PaysExactly hash satoshis signed =
    (o : TxOutput) × (find (pays_to hash) signed.outputs ≡ some o) × (o.satoshis ≡ satoshis)

mispaid-PaysExactly :
    (hash : String) (satoshis : ℕ) (signed : Signed)
    → mispaid hash satoshis signed ≡ false
    → PaysExactly hash satoshis signed
mispaid-PaysExactly hash satoshis signed h =
    elim (Option-cases (find (pays_to hash) signed.outputs)) [
      | inl missing ↦ absurd (ground arith)
      | inr (o, found) ↦ (o, found, ground arith)
    ]

abbrev sorted_inputs : DashTx → Draft → List TxInput
sorted_inputs lib draft = sort lib.input_before draft.inputs

abbrev sorted_outputs : DashTx → FaucetKey → Draft → List TxOutput
sorted_outputs lib key draft = sort lib.output_before (own_change key draft)

-- The rest of `buildPayout` after the signature.
abbrev with_signed : DashTx → FaucetKey → String → ℕ → Draft → Signed → Result BuiltTx
with_signed lib key recipient satoshis draft signed =
    throw_if (mispaid recipient satoshis signed) refused
    >> ok (finish lib signed key (lib.sum (sorted_inputs lib draft)))

-- The rest of it after the draft.
abbrev with_draft : DashTx → FaucetKey → String → ℕ → Draft → Result BuiltTx
with_draft lib key recipient satoshis draft =
    or_throw (lib.finalize_presorted draft (sorted_inputs lib draft) (sorted_outputs lib key draft))
    >>= with_signed lib key recipient satoshis draft

-- Without a limit, every number is within it.
abbrev pub IsWithinLimit : ℕ → Option ℕ → Type 0
IsWithinLimit n none = Unit
IsWithinLimit n (some limit) = n ≤ limit

exceeds-IsWithinLimit :
    (n : ℕ) (max_inputs : Option ℕ) → exceeds n max_inputs ≡ false → IsWithinLimit n max_inputs
exceeds-IsWithinLimit n none h = tt
exceeds-IsWithinLimit n (some limit) h = ltb_false→le limit n h

-- A payout that was built: its coins, the draft that the library made of just these coins, and the
-- signed transaction that it made of the draft, from which the fields were read.
pub record IsPayout (lib : DashTx) (key : FaucetKey) (utxos : List Utxo) (recipient : String)
    (satoshis : ℕ) (max_inputs : Option ℕ) (built : BuiltTx) : Type 0 where
  pub selected : List Utxo
  pub draft : Draft
  pub signed : Signed
  pub another : recipient ≢ key.pub_key_hash
  pub covers : Covers (required_for lib satoshis 2 0) utxos selected
  pub few : IsWithinLimit (length selected) max_inputs
  pub drafted :
      lib.draft_single_output
        (map to_tx_input utxos)
        (map to_tx_input selected)
        (pay_to recipient satoshis)
      ≡ some draft
  pub signs :
      lib.finalize_presorted draft
        (sort lib.input_before draft.inputs)
        (sort lib.output_before (own_change key draft))
      ≡ some signed
  pub pays : PaysExactly recipient satoshis signed
  pub read : built ≡ finish lib signed key (lib.sum (sort lib.input_before draft.inputs))

-- A payout that is built goes to somebody else, and selects coins that cover its amount and fee
-- and are no more than the limit; what is signed is the draft made of just these coins, and its
-- signed transaction pays the recipient exactly the amount.
pub build_payout-IsPayout :
    (lib : DashTx) (key : FaucetKey) (utxos : List Utxo) (recipient : String) (satoshis : ℕ)
    (max_inputs : Option ℕ) (built : BuiltTx)
    → build_payout lib key utxos recipient satoshis max_inputs ≡ ok built
    → IsPayout lib key utxos recipient satoshis max_inputs built
unfolding build_payout
build_payout-IsPayout lib key utxos recipient satoshis max_inputs built e =
    let (another, e1) = throw_if-ok (same recipient key.pub_key_hash) self_pay _ built e in
    let (selected, picked, e2) = bind-ok (select_inputs lib utxos satoshis 2 0) _ built e1 in
    let (few, e3) = throw_if-ok (exceeds (length selected) max_inputs) _ _ built e2 in
    let (draft, drafted, e4) =
      bind-ok
        (or_throw (
          lib.draft_single_output (map to_tx_input utxos) (map to_tx_input selected)
            (pay_to recipient satoshis)))
        (with_draft lib key recipient satoshis) built e3 in
    let (signed, finalized, e5) =
      bind-ok
        (or_throw
          (lib.finalize_presorted draft (sorted_inputs lib draft) (sorted_outputs lib key draft)))
        (with_signed lib key recipient satoshis draft) built e4 in
    let (paid, e6) = throw_if-ok (mispaid recipient satoshis signed) refused _ built e5 in
    record {
      selected = selected;
      draft = draft;
      signed = signed;
      drafted = or_throw-some _ draft drafted;
      signs = or_throw-some _ signed finalized;
      another =
          λ x. absurd (cc (another, subst (λ h. same recipient h ≡ true) x (same_refl recipient)));
      covers = select_inputs-Covers lib utxos selected satoshis 2 0 picked;
      few = exceeds-IsWithinLimit (length selected) max_inputs few;
      pays = mispaid-PaysExactly recipient satoshis signed paid;
      read =
          sym (ok-injective (finish lib signed key (lib.sum (sorted_inputs lib draft))) built e6);
    }
