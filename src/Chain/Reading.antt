-- ===== src/Chain/Reading.antt =====
-- What src/chain/index.ts reads of the chain: `getUtxos`, `isCoinbase` and `getChainLockStatus`.
pub mod Current
use dash_faucet_cf.Base.{
  ℕ, ◌+◌, String, Bool, true, false, ◌&&◌, ◌||◌, not, Option, none, some, List, [], ◌∷◌, ◌++◌, map,
  leb, if◌then◌else◌, filter,
}
use dash_faucet_cf.Tx.{Utxo}
use dash_faucet_cf.Treasury.{Snapshot}
use dash_faucet_cf.Chain.{Provider, Client, ChainLockStatus}
use dash_faucet_cf.Chain.Tip.{
  Status, has_height, height_of, max_lag_blocks, tip_height, survey_with, active,
}

-- A provider that lists coins, answers, and is not too far behind the tip.
abbrev pub is_eligible : ℕ → Status → Bool
is_eligible tip s =
    s.provider.can_read_utxos && has_height s && leb tip (height_of s + max_lag_blocks)

-- What one provider lists, with the flag `retried` before and after: a quick failure earns one more
-- try, once in a call.
unfoldable pub attempt : Bool → Option (List Utxo) → Provider → Option (List Utxo) × Bool
attempt retried (some utxos) p = (some utxos, retried)
attempt retried none p =
    if retried || p.is_aborted then (none, retried) else (p.get_utxos_again, true)

-- The loop over the eligible providers.
unfoldable pub read_utxos : Bool → List Provider → Option (List Utxo)
unfolding attempt
read_utxos retried [] = none
read_utxos retried (p ∷ ps) =
    let (found, retried') = attempt retried p.get_utxos p in
    let rest = read_utxos retried' ps in elim found [ some utxos ↦ some utxos | none ↦ rest ]

-- `getUtxos`; `none` is an AllProvidersFailedError.
unfoldable pub get_utxos : Client → Option Snapshot
unfolding read_utxos
get_utxos c =
    let statuses = survey_with c in
    elim (tip_height statuses) [
      | none ↦ none
      | some tip ↦
          elim (read_utxos false (map (λ s. s.provider) (filter (is_eligible tip) statuses))) [
            | none ↦ none
            | some utxos ↦ some record { utxos = utxos; tip_height = tip }
          ]
    ]

-- The first answer of the providers that have a method.
unfoldable pub first_answer :
    {A : Type 0} → (Provider → Option (String → Option A)) → String → List Provider → Option A
first_answer method txid [] = none
first_answer method txid (p ∷ ps) =
    let rest = first_answer method txid ps in
    elim (method p) [ none ↦ rest | some ask ↦ elim (ask txid) [ some a ↦ some a | none ↦ rest ] ]

-- `isCoinbase`: the configured providers first, an evonode only where none of them could say.
unfoldable pub is_coinbase : Client → String → Option Bool
unfolding first_answer
is_coinbase c txid =
    first_answer (λ p. p.is_coinbase) txid
      (c.primary ++ (c.fallback ++ filter (λ p. p.is_evonode) (active c)))

-- `getChainLockStatus`: never a sampled evonode.
unfoldable pub get_chain_lock_status : Client → String → Option ChainLockStatus
unfolding first_answer
get_chain_lock_status c txid =
    first_answer (λ p. p.get_chain_lock_status) txid (c.primary ++ c.fallback)
