-- ===== src/Tx.antt =====
-- src/tx.ts: the coins, the transactions built from them and the errors, with the parts of the
-- dashtx package that the builders call as a record of functions.
pub mod Select
pub mod Build
use dash_faucet_cf.Base.{ℕ, ◌+◌, String, Bool, Option, List, ltb, ◌==◌, if◌then◌else◌}
use dash_faucet_cf.Base.Int.{ℤ}

-- `Utxo` of src/chain/types.ts
pub record Utxo : Type 0 where
  pub txid : String
  pub output_index : ℕ
  pub satoshis : ℕ
  pub script : String
  pub height : Option ℕ

-- The key `${txid}:${vout}` of an outpoint; a txid holds no colon, so the pair stands for it.
pub record Outpoint : Type 0 where
  pub txid : String
  pub output_index : ℕ

pub record OwnOutput : Type 0 where
  pub txid : String
  pub output_index : ℕ
  pub satoshis : ℕ

-- The fee is the difference of two sums that come from the library, so it is signed.
pub record BuiltTx : Type 0 where
  pub hex : String
  pub txid : String
  pub inputs : List Outpoint
  pub own_outputs : List OwnOutput
  pub fee : ℤ
  pub total_in : ℕ

-- The error classes; `refused` is a plain `Error`, the library's included.
pub data TxError : Type 0 where
  insufficient_funds : ℕ → ℕ → TxError
  too_fragmented : ℕ → ℕ → TxError
  unconfirmed_funds : ℕ → ℕ → TxError
  self_pay : TxError
  refused : TxError

pub data Result (A : Type 0) : Type 0 where
  ok : A → Result A
  err : TxError → Result A

infixl 5 ◌>>=◌ ◌>>◌
abbrev pub ◌>>=◌ : {A B : Type 0} → Result A → (A → Result B) → Result B
ok a >>= f = f a
err e >>= f = err e

abbrev pub ◌>>◌ : {B : Type 0} → Result (Unit {0}) → Result B → Result B
m >> k = m >>= λ _. k

-- `if (c) throw e`
abbrev pub throw_if : Bool → TxError → Result (Unit {0})
throw_if c e = if c then err e else ok tt

-- A library call that may throw.
abbrev pub or_throw : {A : Type 0} → Option A → Result A
or_throw o = elim o [ Option.none ↦ err refused | Option.some a ↦ ok a ]

pub record FaucetKey : Type 0 where
  pub pub_key_hash : String
  pub address : String

pub record TxInput : Type 0 where
  pub txid : String
  pub output_index : ℕ
  pub satoshis : ℕ
  pub script : String

pub record TxOutput : Type 0 where
  pub satoshis : ℕ
  pub pub_key_hash : Option String
  pub address : Option String
  pub memo : Option String

-- `change` is one of the outputs, by its position.
pub record Draft : Type 0 where
  pub inputs : List TxInput
  pub outputs : List TxOutput
  pub change : Option ℕ

pub record SigningRequest : Type 0 where
  pub version : ℕ
  pub type : ℕ
  pub inputs : List TxInput
  pub outputs : List TxOutput
  pub extra_payload : Option (List ℕ)

pub record Signed : Type 0 where
  pub transaction : String
  pub inputs : List TxInput
  pub outputs : List TxOutput
  pub extra_payload : Option (List ℕ)

-- What the code calls of the package dashtx. `none` is a call that throws. A draft is finalized
-- with its inputs and outputs as the caller has left them.
pub record DashTx : Type 0 where
  pub appraise_max : ℕ → ℕ → ℕ
  pub legacy_dust : ℕ
  pub input_before : TxInput → TxInput → Bool
  pub output_before : TxOutput → TxOutput → Bool
  pub sum : List TxInput → ℕ
  pub draft_single_output : List TxInput → List TxInput → TxOutput → Option Draft
  pub finalize_presorted : Draft → List TxInput → List TxOutput → Option Signed
  pub hash_and_sign_all : SigningRequest → Option Signed
  pub get_id : String → String
  pub create_pkh_script : String → String

-- `feeCeiling`
unfoldable pub fee_ceiling : DashTx → ℕ → ℕ → ℕ → ℕ
fee_ceiling lib num_inputs num_outputs extra_payload_bytes =
    lib.appraise_max num_inputs num_outputs
    + (if ltb 0 extra_payload_bytes then 1 + extra_payload_bytes else 0)

-- `toTxInput`
abbrev pub to_tx_input : Utxo → TxInput
to_tx_input u = record {
  txid = u.txid;
  output_index = u.output_index;
  satoshis = u.satoshis;
  script = u.script;
}

abbrev pub sats : Utxo → ℕ
sats u = u.satoshis

-- `u.height !== null`
abbrev pub is_confirmed : Utxo → Bool
is_confirmed u = elim (u.height) [ Option.none ↦ Bool.false | Option.some _ ↦ Bool.true ]
