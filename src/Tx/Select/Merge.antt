-- ===== src/Tx/Select/Merge.antt =====
-- What `selectMergeInputs` returns.
use mathlib.Core.List.{append_assoc, perm_append_comm}
use mathlib.Core.List.Perm
use dash_faucet_cf.Base.{
  ℕ, zero, suc, ◌+◌, ◌-◌, ◌≤◌, ◌<◌, ◌≡◌, refl, sym, ap, ◌⊎◌, inl, inr, true, false, List, [], ◌∷◌,
  ◌++◌, Perm, arith, leb, leb→le, leb_false→lt, min, length, take, drop, get_or, total,
  total-append, length-append, length-take, length-drop, take-append-drop,
}
use dash_faucet_cf.Base.Sort.{IsSorted, sort, sort-perm, sort-IsSorted, total-perm}
use dash_faucet_cf.Tx.{Utxo, DashTx, fee_ceiling, sats}
use dash_faucet_cf.Tx.Select.{
  prefix_sums, sum_with, advance, descending_before, MergeInputs, select_merge_inputs,
}
use dash_faucet_cf.Tx.Select.Covers.{IsPart}
use dash_faucet_cf.Tx.Select.Largest.{IsAtLeast, total-le-take}

-- The loop stops inside its range, at the end of it or where the sum reaches the goal.
advance_stops :
    (sum_of : ℕ → ℕ) (goal rounds j : ℕ)
    → (advance sum_of goal rounds j ≤ j + rounds)
      × ((advance sum_of goal rounds j ≡ j + rounds)
          ⊎ (goal ≤ sum_of (advance sum_of goal rounds j)))
unfolding advance
advance_stops sum_of goal zero j = (omega arith, inl (omega arith))
advance_stops sum_of goal (suc rounds) j = ground (arith, advance_stops sum_of goal rounds (j + 1))

get_or-prefix_sums :
    (acc j : ℕ) (us : List Utxo)
    → j ≤ length us
    → get_or (prefix_sums acc us) j 0 ≡ acc + total sats (take j us)
unfolding prefix_sums
get_or-prefix_sums acc zero [] h = omega arith
get_or-prefix_sums acc zero (u ∷ us) h = omega arith
get_or-prefix_sums acc (suc j) [] h = absurd (omega arith)
get_or-prefix_sums acc (suc j) (u ∷ us) h =
    omega (arith, get_or-prefix_sums (acc + u.satoshis) j us (omega arith))

take_all : (us : List Utxo) → take (length us) us ≡ us
take_all [] = refl
take_all (u ∷ us) = rw (take_all us)

drop_all : (us : List Utxo) → drop (length us) us ≡ []
drop_all [] = refl
drop_all (u ∷ us) = drop_all us

total-take-drop :
    (n : ℕ) (us : List Utxo) → total sats (take n us) + total sats (drop n us) ≡ total sats us
total-take-drop n us =
    rw (← total-append sats (take n us) (drop n us)) (ap (total sats) (take-append-drop n us))

total-take_mono :
    (m n : ℕ) (us : List Utxo) → m ≤ n → total sats (take m us) ≤ total sats (take n us)
total-take_mono zero n us h = omega arith
total-take_mono (suc m) zero us h = absurd (omega arith)
total-take_mono (suc m) (suc n) [] h = omega arith
total-take_mono (suc m) (suc n) (u ∷ us) h = omega (arith, total-take_mono m n us (omega arith))

take_nil : (n : ℕ) → take {A = Utxo} n [] ≡ []
take_nil zero = refl
take_nil (suc n) = refl

-- The coins between the first `j` and those from `m` on.
split_three :
    (j m : ℕ) (us : List Utxo) → j ≤ m → take j us ++ (take (m - j) (drop j us) ++ drop m us) ≡ us
split_three zero m us h = rw (let e : m - 0 ≡ m = omega arith in e) (take-append-drop m us)
split_three (suc j) zero us h = absurd (omega arith)
split_three (suc j) (suc m) [] h = rw (take_nil (suc m - suc j))
split_three (suc j) (suc m) (u ∷ us) h =
    let e : suc m - suc j ≡ m - j = omega arith in rw (e, split_three j m us (omega arith))

-- The sum that the loop computes is that of the coins which it then slices out.
module _ (ds : List Utxo) (size j : ℕ) (j_size : j ≤ size) (size_n : size ≤ length ds) where
  abbrev chosen : List Utxo
  chosen = take j ds ++ drop (length ds - (size - j)) ds

  sum_with-eq-total : sum_with ds size j ≡ total sats chosen
  unfolding sum_with
  sum_with-eq-total =
      let n = length ds in
      let same_m : n - size + j ≡ n - (size - j) = omega arith in
      rw same_m (
        omega (
          arith,
          get_or-prefix_sums 0 j ds (omega arith),
          get_or-prefix_sums 0 n ds (omega arith),
          get_or-prefix_sums 0 (n - (size - j)) ds (omega arith),
          ap (total sats) (take_all ds),
          total-take-drop (n - (size - j)) ds,
          total-append sats (take j ds) (drop (n - (size - j)) ds),
        ))

  length-chosen : length chosen ≡ size
  length-chosen = omega (
    arith,
    length-append (take j ds) (drop (length ds - (size - j)) ds),
    length-take j ds,
    length-drop (length ds - (size - j)) ds,
  )

  chosen-IsPart : IsPart chosen ds
  chosen-IsPart =
      let m = length ds - (size - j) in
      let mid = take (m - j) (drop j ds) in
      let last = drop m ds in
      (
        mid,
        rw append_assoc (
            rw (split_three j m ds (omega arith)) at
              (Perm.append_left (take j ds) (perm_append_comm last mid))),
      )

abbrev pub merge_goal : DashTx → List Utxo → ℕ → ℕ → ℕ
merge_goal lib coins target max_inputs =
    target + fee_ceiling lib (min max_inputs (length coins)) 1 0

-- What a merge selection promises: it spends coins of the wallet, each at most once, as many as
-- the budget of inputs allows; if it claims to reach the target, they cover it with the fee; if it
-- does not, no choice of that many coins would.
pub record IsMergeSelection (lib : DashTx) (coins : List Utxo) (target max_inputs : ℕ)
    (m : MergeInputs) : Type 0 where
  pub part : IsPart m.inputs coins
  pub count : length m.inputs ≡ min max_inputs (length coins)
  pub covers : m.reaches ≡ true → merge_goal lib coins target max_inputs ≤ total sats m.inputs
  pub best :
      m.reaches ≡ false
      → (picked : List Utxo) → IsPart picked coins
      → length picked ≤ max_inputs
      → total sats picked < merge_goal lib coins target max_inputs

total-one : (us : List Utxo) → total (λ u. 1) us ≡ length us
total-one [] = refl
total-one (u ∷ us) = omega (arith, total-one us)

length-perm : (xs ys : List Utxo) → Perm xs ys → length xs ≡ length ys
length-perm xs ys p = omega (arith, total-perm (λ u. 1) xs ys p, total-one xs, total-one ys)

length-part : (picked coins : List Utxo) → IsPart picked coins → length picked ≤ length coins
length-part picked coins (rest, p) =
    omega (arith, length-perm (picked ++ rest) coins p, length-append picked rest)

IsPart-perm : (picked ds coins : List Utxo) → Perm ds coins → IsPart picked ds → IsPart picked coins
IsPart-perm picked ds coins p (rest, q) = (rest, Perm.trans q p)

-- Where the loop ran to its end and still falls short, so does every choice.
module _ (ds coins : List Utxo) (size goal : ℕ) (perm : Perm ds coins)
    (sorted : IsSorted IsAtLeast ds) (size_n : size ≤ length ds)
    (short : sum_with ds size size < goal) where
  short_of_goal :
      (picked : List Utxo) → IsPart picked coins → length picked ≤ size → total sats picked < goal
  short_of_goal picked (rest, part) le =
      let no_tail : length ds - (size - size) ≡ length ds = omega arith in
      omega (
        arith,
        total-le-take coins ds picked rest sorted perm part,
        total-take_mono (length picked) size ds le,
        sum_with-eq-total ds size size (omega arith) size_n,
        total-append sats (take size ds) (drop (length ds - (size - size)) ds),
      )

module _ (lib : DashTx) (coins ds : List Utxo) (target max_inputs : ℕ) (perm : Perm ds coins)
    (sorted : IsSorted IsAtLeast ds) where
  abbrev size_of : ℕ
  size_of = min max_inputs (length ds)

  abbrev goal_of : ℕ
  goal_of = target + fee_ceiling lib size_of 1 0

  abbrev j_of : ℕ
  j_of = advance (sum_with ds size_of) goal_of size_of 0

  sorted-IsMergeSelection : IsMergeSelection lib coins target max_inputs record {
    inputs = take j_of ds ++ drop (length ds - (size_of - j_of)) ds;
    reaches = leb goal_of (sum_with ds size_of j_of);
  }
  sorted-IsMergeSelection =
      let (inside, stop) = advance_stops (sum_with ds size_of) goal_of size_of 0 in
      let j_size : j_of ≤ size_of = omega (arith, inside) in
      let size_n : size_of ≤ length ds = omega arith in
      let n : length ds ≡ length coins = length-perm ds coins perm in
      let same_goal : merge_goal lib coins target max_inputs ≡ goal_of =
        ap (λ k. target + fee_ceiling lib (min max_inputs k) 1 0) (sym n) in
      record {
        part = IsPart-perm _ ds coins perm (chosen-IsPart ds size_of j_of j_size size_n);
        count = omega (arith, length-chosen ds size_of j_of j_size size_n, n);
        covers = λ e.
            omega (arith, same_goal, leb→le _ _ e, sum_with-eq-total ds size_of j_of j_size size_n);
        best = λ e picked part le. rw same_goal (
            short_of_goal ds coins size_of goal_of perm sorted size_n
              (falls_short stop (leb_false→lt _ _ e)) picked part
              (omega (arith, n, length-part picked coins part)));
      }
    where
      falls_short :
          (j_of ≡ 0 + size_of) ⊎ (goal_of ≤ sum_with ds size_of j_of)
          → sum_with ds size_of j_of < goal_of
          → sum_with ds size_of size_of < goal_of
      falls_short (inl end) lt =
          let same_j : j_of ≡ size_of = omega (arith, end) in
          let same_sum : sum_with ds size_of j_of ≡ sum_with ds size_of size_of =
            ap (sum_with ds size_of) same_j in
          omega (arith, same_sum, lt)
      falls_short (inr reached) lt = absurd (omega (arith, reached, lt))

-- What `selectMergeInputs` returns spends coins of the wallet, each at most once, as many as the
-- budget of inputs allows; if it claims to reach the target, they cover it with the fee; if it
-- does not, no choice of that many coins would.
pub select_merge_inputs-IsMergeSelection :
    (lib : DashTx) (coins : List Utxo) (target max_inputs : ℕ)
    → IsMergeSelection lib coins target max_inputs (select_merge_inputs lib coins target max_inputs)
unfolding select_merge_inputs
select_merge_inputs-IsMergeSelection lib coins target max_inputs =
    sorted-IsMergeSelection lib coins (sort descending_before coins) target max_inputs
      (sort-perm descending_before coins)
      (sort-IsSorted IsAtLeast descending_before (λ x y z p q. omega arith) (λ x y e. leb→le _ _ e)
        (λ x y e. ground arith) coins)
