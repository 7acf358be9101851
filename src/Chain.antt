-- ===== src/Chain.antt =====
-- src/chain/index.ts: the client that asks several providers of the chain. What a provider answers
-- during one call is a field of it; what the client logs and the texts of its errors are left out.
pub mod Errors
pub mod Tip
pub mod Reading
pub mod Relay
pub mod Known
pub mod Settling
use dash_faucet_cf.Base.{
  ℕ, String, Bool, true, false, Option, none, some, List, [], ◌∷◌, if◌then◌else◌, length, ◌==◌,
}
use dash_faucet_cf.Tx.{Utxo}

-- What a call of a provider comes to; `raised` bears the error's message.
pub data Answer (A : Type 0) : Type 0 where
  returned : A → Answer A
  raised : String → Answer A

-- `ChainLockStatus` of src/chain/types.ts
pub record ChainLockStatus : Type 0 where
  pub known : Bool
  pub height : Option ℕ
  pub chain_locked : Bool

-- `ChainProvider` of src/chain/types.ts as `ChainClient` uses it: which kind it is, and what it
-- answers, `none` where it throws or times out. A listing of coins may be asked for twice, and the
-- first attempt may run into its deadline. The optional methods are `none` where they are missing.
pub record Provider : Type 0 where
  pub name : String
  pub is_dapi : Bool
  pub is_evonode : Bool
  pub can_broadcast : Bool
  pub can_read_utxos : Bool
  pub get_height : Option ℕ
  pub get_utxos : Option (List Utxo)
  pub get_utxos_again : Option (List Utxo)
  pub is_aborted : Bool
  pub has_tx : String → Option Bool
  pub broadcast : String → Answer String
  pub is_coinbase : Option (String → Option Bool)
  pub get_chain_lock_status : Option (String → Option ChainLockStatus)

-- The providers of one call: the configured ones, the evonodes that were sampled for it, and the
-- fallbacks.
pub record Client : Type 0 where
  pub primary : List Provider
  pub sampled : List Provider
  pub fallback : List Provider

-- The loop of `knowsTx` over the answers, from the flag `answered` on.
unfoldable pub knows_from : String → List Provider → Bool → Option Bool
knows_from txid [] answered = if answered then some false else none
knows_from txid (p ∷ ps) answered =
    let rest = knows_from txid ps answered in
    let rest_answered = knows_from txid ps true in
    elim (p.has_tx txid) [
      | none ↦ rest
      | some true ↦ if p.is_evonode then rest else some true
      | some false ↦ rest_answered
    ]

unfoldable pub knows_tx : List Provider → String → Option Bool
knows_tx providers txid = knows_from txid providers false

-- The active providers, and the fallbacks, which are asked only where no active one could say.
unfoldable pub any_knows_tx : List Provider → List Provider → String → Option Bool
any_knows_tx active fallback txid =
    let first = knows_tx active txid in
    let second = knows_tx fallback txid in
    elim first [ some known ↦ some known | none ↦ if length fallback == 0 then none else second ]
