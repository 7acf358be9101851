-- ===== src/Tx/Select/Covers.antt =====
-- What `largestFirst` and `find` return, and that a selection of `selectInputs` covers its target.
use mathlib.Core.List.{append_assoc, reverse_perm}
use mathlib.Core.List.Perm
use dash_faucet_cf.Base.{
  ℕ, zero, suc, ◌+◌, ◌≤◌, ◌<◌, ◌≡◌, refl, sym, ap, ◌⊎◌, inl, inr, Bool, true, false, none, some,
  List, [], ◌∷◌, ◌++◌, Perm, arith, leb, leb→le, Bool-cases, Option-cases, length, take, drop,
  filter, find, total, All, All-of_filter, length-append, take-append-drop,
}
use dash_faucet_cf.Base.Sort.{sort-perm, filter-perm}
use dash_faucet_cf.Tx.{Utxo, DashTx, ok, sats, is_confirmed}
use dash_faucet_cf.Tx.Select.{
  required_for, largest_first_from, largest_first, ascending_before, ascending_coins,
  descending_coins, confirmed_coins, select_many, single_coin, select_inputs,
}

-- A run that stops has taken the first `k + 1` coins, which cover what so many coins must.
pub largest_first_from-some :
    (required : ℕ → ℕ) (coins picked : List Utxo) (sum : ℕ) (p : List Utxo)
    → largest_first_from required coins picked sum ≡ some p
    → (k : ℕ) × (p ≡ picked ++ take (suc k) coins)
      × (required (length p) ≤ sum + total sats (take (suc k) coins))
unfolding largest_first_from
largest_first_from-some required [] picked sum p e = absurd (cc)
largest_first_from-some required (u ∷ coins) picked sum p e =
    elim (Bool-cases (leb (required (length (picked ++ u ∷ []))) (sum + u.satoshis))) [
      | inl covered ↦
          let same_p : picked ++ u ∷ [] ≡ p = ground arith in
          (0, sym same_p, rw (← same_p) (ground arith))
      | inr short ↦
          let (k, shape, covers) =
            largest_first_from-some required coins (picked ++ u ∷ []) (sum + u.satoshis) p
              (ground arith) in
          (suc k, rw shape (append_assoc picked (u ∷ []) (take (suc k) coins)), omega arith)
    ]

-- A run that finds nothing fails at every number of coins.
pub largest_first_from-none :
    (required : ℕ → ℕ) (coins picked : List Utxo) (sum : ℕ) (k : ℕ)
    → largest_first_from required coins picked sum ≡ none
    → k < length coins
    → sum + total sats (take (suc k) coins) < required (length picked + suc k)
unfolding largest_first_from
largest_first_from-none required [] picked sum k e lt = absurd (omega arith)
largest_first_from-none required (u ∷ coins) picked sum zero e lt =
    rw (← length-append picked (u ∷ [])) (ground arith)
largest_first_from-none required (u ∷ coins) picked sum (suc k) e lt =
    let later =
      largest_first_from-none required coins (picked ++ u ∷ []) (sum + u.satoshis) k (ground arith)
        (omega arith) in
    let n : length (picked ++ u ∷ []) + suc k ≡ length picked + suc (suc k) =
      omega (arith, length-append picked (u ∷ [])) in
    rw (← n) (omega (arith, later))

pub find-some {ℓ} :
    {A : Type ℓ} (p : A → Bool) (xs : List A) (x : A)
    → find p xs ≡ some x
    → (p x ≡ true) × (rest : List A) × Perm (x ∷ rest) xs
find-some p [] x e = absurd (cc)
find-some p (y ∷ ys) x e = elim (Bool-cases (p y)) [
  | inl passes ↦
      let same_x : y ≡ x = ground arith in
      (rw (← same_x) passes, ys, rw (← same_x) (Perm.refl (y ∷ ys)))
  | inr fails ↦
      let (passes, rest, perm) = find-some p ys x (ground arith) in
      (passes, y ∷ rest, Perm.trans (Perm.swap y x rest) (Perm.cons y perm))
]

pub find-none {ℓ} :
    {A : Type ℓ} (p : A → Bool) (xs : List A) → find p xs ≡ none → All (λ x. p x ≡ false) xs
find-none p [] e = tt
find-none p (y ∷ ys) e = elim (Bool-cases (p y)) [
  | inl passes ↦ absurd (ground arith)
  | inr fails ↦ (fails, find-none p ys (ground arith))
]

pub descending_coins-perm : (utxos : List Utxo) → Perm (descending_coins utxos) utxos
descending_coins-perm utxos = Perm.trans (reverse_perm _) (sort-perm ascending_before utxos)

-- `picked` is some of the coins, each at most once.
abbrev pub IsPart : List Utxo → List Utxo → Type 0
IsPart picked utxos = (rest : List Utxo) × Perm (picked ++ rest) utxos

abbrev pub AllConfirmed : List Utxo → Type 0
AllConfirmed = All (λ u. is_confirmed u ≡ true)

-- A choice of coins that a transaction may spend for the target.
pub record Covers (required : ℕ → ℕ) (utxos picked : List Utxo) : Type 0 where
  pub part : IsPart picked utxos
  pub enough : required (length picked) ≤ total sats picked
  pub shape : (length picked ≡ 1) ⊎ AllConfirmed picked

take-IsPart : (k : ℕ) (coins utxos : List Utxo) → IsPart coins utxos → IsPart (take k coins) utxos
take-IsPart k coins utxos (rest, perm) = (
  drop k coins ++ rest,
  rw (← append_assoc (take k coins) (drop k coins) rest) (rw (take-append-drop k coins) perm),
)

confirmed-IsPart : (utxos : List Utxo) → IsPart (confirmed_coins utxos) utxos
confirmed-IsPart utxos = (
  filter (λ u. elim (is_confirmed u) [ true ↦ false | false ↦ true ]) (descending_coins utxos),
  Perm.trans (filter-perm is_confirmed _ (λ u e. rw e) (λ u e. rw e) (descending_coins utxos))
      (descending_coins-perm utxos),
)

take-All : (P : Utxo → Type 0) (k : ℕ) (coins : List Utxo) → All P coins → All P (take k coins)
take-All P zero coins h = tt
take-All P (suc k) [] h = tt
take-All P (suc k) (u ∷ us) (p, h) = (p, take-All P k us h)

select_many-Covers :
    (required : ℕ → ℕ) (utxos picked : List Utxo)
    → select_many required utxos ≡ ok picked
    → Covers required utxos picked
unfolding select_many
select_many-Covers required utxos picked e =
    elim (Option-cases (largest_first required (confirmed_coins utxos))) [
      | inl missing ↦ elim (Option-cases (largest_first required (descending_coins utxos))) [
        | inl nothing ↦ absurd (ground arith)
        | inr (some_coins, found) ↦ absurd (ground arith)
      ]
      | inr (p, found) ↦
          let same_p : p ≡ picked = ground arith in
          let (k, taken, covers) =
            largest_first_from-some required (confirmed_coins utxos) [] 0 p found in
          rw (← same_p) record {
            part = rw taken (take-IsPart (suc k) _ utxos (confirmed-IsPart utxos));
            enough = omega (arith, covers, ap (total sats) taken);
            shape = inr (
                rw taken (
                  take-All (λ u. is_confirmed u ≡ true) (suc k) _
                    (All-of_filter _ is_confirmed (λ u h. h) (descending_coins utxos))));
          }
    ]

-- A selection consists of coins of the wallet, each at most once; they cover the target with the
-- fee for as many inputs; and it is a single coin or confirmed coins only.
pub select_inputs-Covers :
    (lib : DashTx) (utxos picked : List Utxo) (target num_outputs extra : ℕ)
    → select_inputs lib utxos target num_outputs extra ≡ ok picked
    → Covers (required_for lib target num_outputs extra) utxos picked
unfolding select_inputs
select_inputs-Covers lib utxos picked target num_outputs extra e =
    let required = required_for lib target num_outputs extra in
    elim (Option-cases (single_coin required utxos)) [
      | inl missing ↦ select_many-Covers required utxos picked (ground arith)
      | inr (u, found) ↦
          let same_p : u ∷ [] ≡ picked = ground arith in
          let (covers, rest, perm) = find-some _ (ascending_coins utxos) u found in
          rw (← same_p) record {
            part = (rest, Perm.trans perm (sort-perm ascending_before utxos));
            enough = omega (arith, leb→le _ _ covers);
            shape = inl refl;
          }
    ]
