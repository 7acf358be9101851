-- ===== src/Tx/Select/Complete.antt =====
-- When `selectInputs` throws, no choice of coins would have done.
use mathlib.Core.List.Perm
use dash_faucet_cf.Base.{
  ℕ, suc, ◌+◌, ◌≤◌, ◌<◌, ◌≡◌, refl, ap, ◌⊎◌, inl, inr, Bool, true, false, none, List, [], ◌∷◌, ◌++◌,
  Perm, arith, leb, leb→le, Option-cases, length, filter, total, All,
}
use dash_faucet_cf.Base.Sort.{
  IsSorted, sort-IsSorted, sort-perm, reverse-IsSorted, filter-IsSorted, total-perm,
}
use dash_faucet_cf.Tx.{Utxo, DashTx, err, insufficient_funds, TxError, sats, is_confirmed}
use dash_faucet_cf.Tx.Select.{
  required_for, largest_first, ascending_before, ascending_coins, descending_coins, confirmed_coins,
  select_many, single_coin, select_inputs,
}
use dash_faucet_cf.Tx.Select.Covers.{
  largest_first_from-none, find-none, descending_coins-perm, IsPart, AllConfirmed,
}
use dash_faucet_cf.Tx.Select.Largest.{
  IsAtLeast, length-le-filter, total-le-largest, filter-true, trivially,
}

abbrev IsAtMost : Utxo → Utxo → Type 0
IsAtMost u v = u.satoshis ≤ v.satoshis

descending_coins-IsSorted : (utxos : List Utxo) → IsSorted IsAtLeast (descending_coins utxos)
descending_coins-IsSorted utxos =
    reverse-IsSorted IsAtMost IsAtLeast (λ x y r. r) (ascending_coins utxos)
      (sort-IsSorted IsAtMost ascending_before (λ x y z p q. omega arith) (λ x y e. leb→le _ _ e)
        (λ x y e. ground arith) utxos)

-- If the largest coins that pass `p` never cover, no other choice of such coins does.
module _ (required : ℕ → ℕ) (utxos : List Utxo) (p : Utxo → Bool) where
  largest_first-none :
      (xs rest : List Utxo)
      → largest_first required (filter p (descending_coins utxos)) ≡ none
      → Perm (xs ++ rest) utxos
      → All (λ u. p u ≡ true) xs
      → 0 < length xs
      → total sats xs < required (length xs)
  largest_first-none [] rest e part passes pos = absurd (omega arith)
  largest_first-none (x ∷ xs) rest e part passes pos =
      let ds = descending_coins utxos in
      let sorted = filter-IsSorted IsAtLeast p ds (descending_coins-IsSorted utxos) in
      let fits =
        length-le-filter p utxos ds (x ∷ xs) rest sorted (descending_coins-perm utxos) part
          passes in
      let best =
        total-le-largest p utxos ds (x ∷ xs) rest sorted (descending_coins-perm utxos) part
          passes in
      let count : 0 + suc (length xs) ≡ suc (length xs) = omega arith in
      omega (
        arith,
        best,
        ap required count,
        largest_first_from-none required (filter p ds) [] 0 (length xs) e (omega (arith, fits)),
      )

-- A coin that passes a test, counted.
abbrev passing : (Utxo → Bool) → Utxo → ℕ
passing p u = elim (p u) [ true ↦ 1 | false ↦ 0 ]

passing-none :
    (p : Utxo → Bool) (xs : List Utxo) → All (λ u. p u ≡ false) xs → total (passing p) xs ≡ 0
passing-none p [] h = refl
passing-none p (x ∷ xs) (e, h) = ground (arith, passing-none p xs h)

module _ (required : ℕ → ℕ) (utxos : List Utxo) where
  single_coin-none :
      (xs rest : List Utxo)
      → single_coin required utxos ≡ none
      → Perm (xs ++ rest) utxos
      → length xs ≡ 1
      → total sats xs < required (length xs)
  single_coin-none [] rest e part n = absurd (omega arith)
  single_coin-none (x ∷ y ∷ xs) rest e part n = absurd (omega arith)
  single_coin-none (x ∷ []) rest e part n =
      let covers : Utxo → Bool = λ u. leb (required 1) u.satoshis in
      let none_passes = passing-none covers (ascending_coins utxos) (find-none covers _ e) in
      let counts =
        total-perm (passing covers) (x ∷ rest) (ascending_coins utxos)
          (Perm.trans part (Perm.symm (sort-perm ascending_before utxos))) in
      ground (arith, none_passes, counts)

  all_coins-none :
      (xs rest : List Utxo)
      → largest_first required (descending_coins utxos) ≡ none
      → Perm (xs ++ rest) utxos
      → 0 < length xs
      → total sats xs < required (length xs)
  all_coins-none xs rest e part pos =
      largest_first-none required utxos (λ u. true) xs rest (rw filter-true e) part (trivially xs)
        pos

  -- Why `selectInputs` threw `e`, in terms of its two searches.
  select_many_failed :
      (e : TxError)
      → select_many required utxos ≡ err e
      → (largest_first required (confirmed_coins utxos) ≡ none)
        × ((a r : ℕ)
            → e ≡ insufficient_funds a r
            → largest_first required (descending_coins utxos) ≡ none)
  unfolding select_many
  select_many_failed e h = elim (Option-cases (largest_first required (confirmed_coins utxos))) [
    | inr (p, found) ↦ absurd (ground arith)
    | inl missing ↦ elim (Option-cases (largest_first required (descending_coins utxos))) [
      | inl nothing ↦ (missing, λ a r same_e. nothing)
      | inr (p, found) ↦ (missing, λ a r same_e. absurd (ground arith))
    ]
  ]

-- Where `selectInputs` throws, no choice of at least one coin that a transaction may make covers
-- the target with its fee: no single coin, no confirmed coins, and for insufficient funds no coins
-- at all.
pub select_inputs_complete :
    (lib : DashTx) (utxos picked : List Utxo) (target num_outputs extra : ℕ) (e : TxError)
    → select_inputs lib utxos target num_outputs extra ≡ err e
    → IsPart picked utxos
    → 0 < length picked
    → (length picked ≡ 1) ⊎ (AllConfirmed picked ⊎ ((a r : ℕ) × (e ≡ insufficient_funds a r)))
    → total sats picked < required_for lib target num_outputs extra (length picked)
unfolding select_inputs
select_inputs_complete lib utxos picked target num_outputs extra e h (rest, part) pos shape =
    let required = required_for lib target num_outputs extra in
    elim (Option-cases (single_coin required utxos)) [
      | inr (u, found) ↦ absurd (ground arith)
      | inl missing ↦
          let (confirmed_none, all_none) = select_many_failed required utxos e (ground arith) in
          elim shape [
            | inl one ↦ single_coin-none required utxos picked rest missing part one
            | inr (inl confirmed) ↦
                largest_first-none required utxos is_confirmed picked rest confirmed_none part
                  confirmed pos
            | inr (inr (a, r, same_e)) ↦
                all_coins-none required utxos picked rest (all_none a r same_e) part pos
          ]
    ]
