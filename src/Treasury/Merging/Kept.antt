-- ===== src/Treasury/Merging/Kept.antt =====
-- The coins that `planMerge` of src/treasury.ts takes for a merge.
use dash_faucet_cf.Base.{
  ◌⊎◌, subst, ℕ, ◌+◌, ◌≤◌, ◌<◌, ◌≡◌, refl, ap, inl, inr, Bool, true, false, List, [], ◌∷◌, ◌++◌,
  arith, Bool-cases, if◌then◌else◌, ltb, leb, length, filter, total, total-append, All,
}
use dash_faucet_cf.Base.Sort.{sort, sort-perm, total-perm}
use dash_faucet_cf.Config.{FaucetConfig}
use dash_faucet_cf.Tx.{Utxo, DashTx, fee_ceiling, sats, is_confirmed}
use dash_faucet_cf.Tx.Select.{MergeInputs, select_merge_inputs, descending_before}
use dash_faucet_cf.Tx.Select.Covers.{IsPart}
use dash_faucet_cf.Tx.Select.Merge.{IsMergeSelection, select_merge_inputs-IsMergeSelection}
use dash_faucet_cf.Treasury.Merging.{
  MergePlan, merge, below_goal, material_coins, spare_coins, merge_material, is_stuck, plan_of,
  plan_merge,
}

-- The number of coins that fail a test. Unlike `All`, it is the same for every order of the coins.
abbrev failing : (Utxo → Bool) → List Utxo → ℕ
failing p us = total (λ u. if p u then 0 else 1) us

failing-All : (p : Utxo → Bool) (us : List Utxo) → failing p us ≡ 0 → All (λ u. p u ≡ true) us
failing-All p [] h = tt
failing-All p (u ∷ us) h = elim (Bool-cases (p u)) [
  | inl holds ↦ (holds, failing-All p us (ground (arith)))
  | inr fails ↦ absurd (ground arith)
]

failing-filter-le : (p q : Utxo → Bool) (us : List Utxo) → failing p (filter q us) ≤ failing p us
failing-filter-le p q [] = omega arith
failing-filter-le p q (u ∷ us) = ground (arith, failing-filter-le p q us)

failing-filter : (p : Utxo → Bool) (us : List Utxo) → failing p (filter p us) ≡ 0
failing-filter p [] = refl
failing-filter p (u ∷ us) = ground (arith, failing-filter p us)

failing-part :
    (p : Utxo → Bool) (picked us : List Utxo)
    → IsPart picked us
    → failing p us ≡ 0
    → failing p picked ≡ 0
failing-part p picked us (rest, perm) h = omega (
  arith,
  h,
  total-perm (λ u. if p u then 0 else 1) (picked ++ rest) us perm,
  total-append (λ u. if p u then 0 else 1) picked rest,
)

abbrev is_below : ℕ → Utxo → Bool
is_below goal u = ltb u.satoshis goal

material_coins-below :
    (cfg : FaucetConfig) (utxos : List Utxo) (goal : ℕ)
    → failing (is_below goal) (material_coins cfg utxos goal) ≡ 0
unfolding material_coins below_goal
material_coins-below cfg utxos goal = omega (
  arith,
  failing-filter-le (is_below goal) _ (sort descending_before (filter (is_below goal) utxos)),
  total-perm (λ u. if is_below goal u then 0 else 1) _ _
      (sort-perm descending_before (filter (is_below goal) utxos)),
  failing-filter (is_below goal) utxos,
)

merge_material-below :
    (cfg : FaucetConfig) (utxos : List Utxo) (goal : ℕ)
    → failing (is_below goal) (merge_material cfg utxos goal) ≡ 0
unfolding merge_material spare_coins
merge_material-below cfg utxos goal =
    elim (Bool-cases (leb goal (total sats (spare_coins cfg utxos goal)))) [
      | inl enough ↦ rw enough (
          omega (
            arith,
            material_coins-below cfg utxos goal,
            failing-filter-le (is_below goal) _ (material_coins cfg utxos goal),
          ))
      | inr short ↦ rw short (material_coins-below cfg utxos goal)
    ]

-- The coins of a merge are confirmed, each is worth less than the goal, there are at least two of
-- them and no more than the budget of inputs, and where the plan says so they cover the goal with
-- the fee.
pub record IsMergeable (cfg : FaucetConfig) (lib : DashTx) (goal : ℕ) (coins : List Utxo)
    (reaches : Bool) : Type 0 where
  pub confirmed : All (λ u. is_confirmed u ≡ true) coins
  pub below : All (λ u. is_below goal u ≡ true) coins
  pub two : 2 ≤ length coins
  pub few : length coins ≤ cfg.max_payout_inputs
  pub reached : (reaches ≡ false) ⊎ (goal + fee_ceiling lib (length coins) 1 0 ≤ total sats coins)

two-coins :
    (goal : ℕ) (coins : List Utxo)
    → 0 < goal
    → All (λ u. is_below goal u ≡ true) coins
    → goal ≤ total sats coins
    → 2 ≤ length coins
two-coins goal [] pos below reached = absurd (omega (arith, pos, reached))
two-coins goal (u ∷ []) pos (less, rest) reached = absurd (ground arith)
two-coins goal (u ∷ v ∷ us) pos below reached = omega arith

module _ (cfg : FaucetConfig) (lib : DashTx) (goal : ℕ) (material : List Utxo)
    (below : failing (is_below goal) material ≡ 0) (pos : 0 < goal) where
  selection-IsMergeable :
      (m : MergeInputs)
      → IsMergeSelection lib (filter is_confirmed material) goal cfg.max_payout_inputs m
      → is_stuck m (filter is_confirmed material) ≡ false
      → IsMergeable cfg lib goal m.inputs m.reaches
  selection-IsMergeable m chosen moving = record {
    confirmed = failing-All is_confirmed m.inputs (
        failing-part is_confirmed m.inputs (filter is_confirmed material) chosen.part
          (failing-filter is_confirmed material));
    below = all_below;
    two = elim (Bool-cases m.reaches) [
      | inl reaches ↦ two-coins goal m.inputs pos all_below (omega (arith, chosen.covers reaches))
      | inr short ↦ ground arith
    ];
    few = omega (arith, chosen.count);
    reached = elim (Bool-cases m.reaches) [
      | inl reaches ↦ inr (rw chosen.count (chosen.covers reaches))
      | inr short ↦ inl short
    ];
  }
    where
      all_below : All (λ u. is_below goal u ≡ true) m.inputs
      all_below = failing-All (is_below goal) m.inputs (
          failing-part (is_below goal) m.inputs (filter is_confirmed material) chosen.part
            (omega (arith, failing-filter-le (is_below goal) is_confirmed material, below)))

abbrev merged_coins : MergePlan → List Utxo
merged_coins (merge coins reaches) = coins
merged_coins _ = []

abbrev merge_reaches : MergePlan → Bool
merge_reaches (merge coins reaches) = reaches
merge_reaches _ = false

-- A merge that `planMerge` plans for a positive goal takes confirmed coins that are each worth
-- less than the goal, at least two and no more than the budget of inputs, and where the plan says
-- so they cover the goal and the fee of their merge.
pub plan_merge-IsMergeable :
    (cfg : FaucetConfig) (lib : DashTx) (utxos : List Utxo) (goal : ℕ) (coins : List Utxo)
    (reaches : Bool)
    → 0 < goal
    → plan_merge cfg lib utxos goal ≡ merge coins reaches
    → IsMergeable cfg lib goal coins reaches
unfolding plan_merge plan_of
plan_merge-IsMergeable cfg lib utxos goal coins reaches pos planned =
    let material = merge_material cfg utxos goal in
    let confirmed = filter is_confirmed material in
    let m = select_merge_inputs lib confirmed goal cfg.max_payout_inputs in
    elim (Bool-cases (ltb (total sats material) goal)) [
      | inl poor ↦ absurd (ground arith)
      | inr rich ↦ elim (Bool-cases (is_stuck m confirmed)) [
        | inl stuck ↦ absurd (ground arith)
        | inr moving ↦
            let same : merge m.inputs m.reaches ≡ merge coins reaches = ground arith in
            subst (λ c. IsMergeable cfg lib goal c reaches) (ap merged_coins same)
              (subst (IsMergeable cfg lib goal m.inputs) (ap merge_reaches same) (
                selection-IsMergeable cfg lib goal material (merge_material-below cfg utxos goal)
                  pos m
                  (select_merge_inputs-IsMergeSelection lib confirmed goal cfg.max_payout_inputs)
                  moving))
      ]
    ]
