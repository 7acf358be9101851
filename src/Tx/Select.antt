-- ===== src/Tx/Select.antt =====
-- Coin selection of src/tx.ts: `selectInputs` for a payment, `selectMergeInputs` for a merge.
pub mod Covers
pub mod Largest
pub mod Complete
pub mod Merge
use dash_faucet_cf.Base.{
  ℕ, zero, suc, ◌+◌, ◌-◌, Bool, Option, none, some, List, [], ◌∷◌, ◌++◌, reverse, ltb, leb, min,
  max, if◌then◌else◌, length, take, drop, get_or, filter, find, total,
}
use dash_faucet_cf.Base.Sort.{sort}
use dash_faucet_cf.Tx.{
  Utxo, DashTx, Result, ok, err, insufficient_funds, unconfirmed_funds, fee_ceiling, sats,
  is_confirmed,
}

abbrev pub ascending_before : Utxo → Utxo → Bool
ascending_before a b = leb a.satoshis b.satoshis

abbrev pub descending_before : Utxo → Utxo → Bool
descending_before a b = leb b.satoshis a.satoshis

-- `required` of `selectInputs`
unfoldable pub required_for : DashTx → ℕ → ℕ → ℕ → ℕ → ℕ
required_for lib target num_outputs extra inputs =
    target + fee_ceiling lib (max 1 inputs) num_outputs extra

-- The loop of `largestFirst`, over the coins left, the coins picked and their sum.
unfoldable pub largest_first_from : (ℕ → ℕ) → List Utxo → List Utxo → ℕ → Option (List Utxo)
largest_first_from required [] picked sum = none
largest_first_from required (u ∷ coins) picked sum =
    let rest = largest_first_from required coins (picked ++ u ∷ []) (sum + u.satoshis) in
    if leb (required (length (picked ++ u ∷ []))) (sum + u.satoshis)
    then some (picked ++ u ∷ [])
    else rest

abbrev pub largest_first : (ℕ → ℕ) → List Utxo → Option (List Utxo)
largest_first required coins = largest_first_from required coins [] 0

abbrev pub ascending_coins : List Utxo → List Utxo
ascending_coins utxos = sort ascending_before utxos

abbrev pub descending_coins : List Utxo → List Utxo
descending_coins utxos = reverse (ascending_coins utxos)

abbrev pub confirmed_coins : List Utxo → List Utxo
confirmed_coins utxos = filter is_confirmed (descending_coins utxos)

-- `selectInputs`, once no single coin covers the target
unfoldable pub select_many : (ℕ → ℕ) → List Utxo → Result (List Utxo)
select_many required utxos = elim (largest_first required (confirmed_coins utxos)) [
  | some picked ↦ ok picked
  | none ↦ elim (largest_first required (descending_coins utxos)) [
    | some _ ↦ err (
        unconfirmed_funds (total sats (confirmed_coins utxos))
          (required (length (confirmed_coins utxos))))
    | none ↦ err (insufficient_funds (total sats utxos) (required (length utxos)))
  ]
]

-- `ascending.find((u) => u.satoshis >= required(1))`
abbrev pub single_coin : (ℕ → ℕ) → List Utxo → Option Utxo
single_coin required utxos = find (λ u. leb (required 1) u.satoshis) (ascending_coins utxos)

unfoldable pub select_inputs : DashTx → List Utxo → ℕ → ℕ → ℕ → Result (List Utxo)
unfolding select_many
select_inputs lib utxos target num_outputs extra =
    let required = required_for lib target num_outputs extra in
    elim (single_coin required utxos) [ some u ↦ ok (u ∷ []) | none ↦ select_many required utxos ]

-- `prefix`: the sums of the first coins, from none to all.
unfoldable pub prefix_sums : ℕ → List Utxo → List ℕ
prefix_sums acc [] = acc ∷ []
prefix_sums acc (u ∷ us) = acc ∷ prefix_sums (acc + u.satoshis) us

-- The sum of the `j` largest coins and the `size - j` smallest.
unfoldable pub sum_with : List Utxo → ℕ → ℕ → ℕ
unfolding prefix_sums
sum_with descending size j =
    let n = length descending in
    let prefix = prefix_sums 0 descending in
    get_or prefix j 0 + get_or prefix n 0 - get_or prefix (n - size + j) 0

-- `while (j < size && sumWith(j) < goal) j += 1`, on the rounds left, `size - j`.
unfoldable pub advance : (ℕ → ℕ) → ℕ → ℕ → ℕ → ℕ
advance sum_of goal zero j = j
advance sum_of goal (suc rounds) j =
    let next = advance sum_of goal rounds (j + 1) in if ltb (sum_of j) goal then next else j

pub record MergeInputs : Type 0 where
  pub inputs : List Utxo
  pub reaches : Bool

unfoldable pub select_merge_inputs : DashTx → List Utxo → ℕ → ℕ → MergeInputs
select_merge_inputs lib coins target max_inputs =
    let descending = sort descending_before coins in
    let n = length descending in
    let size = min max_inputs n in
    let goal = target + fee_ceiling lib size 1 0 in
    let j = advance (sum_with descending size) goal size 0 in
    record {
      inputs = take j descending ++ drop (n - (size - j)) descending;
      reaches = leb goal (sum_with descending size j);
    }
