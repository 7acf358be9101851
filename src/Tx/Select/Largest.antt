-- ===== src/Tx/Select/Largest.antt =====
-- The first coins of a descending list outweigh every other choice of as many coins.
use dash_faucet_cf.Base.{
  ℕ, zero, suc, ◌+◌, ◌-◌, ◌*◌, ◌≤◌, ◌≡◌, refl, Bool, true, List, [], ◌∷◌, ◌++◌, Perm, arith,
  if◌then◌else◌, length, take, filter, total, All, total-append,
}
use dash_faucet_cf.Base.Sort.{IsSorted, total-perm}
use dash_faucet_cf.Tx.{Utxo, sats}

abbrev pub IsAtLeast : Utxo → Utxo → Type 0
IsAtLeast u v = v.satoshis ≤ u.satoshis

abbrev above : ℕ → Utxo → ℕ
above t u = u.satoshis - t

-- What a coin that passes `p` holds above `t`.
abbrev excess : (Utxo → Bool) → ℕ → Utxo → ℕ
excess p t u = if p u then u.satoshis - t else 0

-- A coin that passes `p`, counted.
abbrev one : (Utxo → Bool) → Utxo → ℕ
one p u = if p u then 1 else 0

total-le-excess :
    (p : Utxo → Bool) (t : ℕ) (xs : List Utxo)
    → All (λ u. p u ≡ true) xs
    → total sats xs ≤ length xs * t + total (excess p t) xs
total-le-excess p t [] h = omega arith
total-le-excess p t (x ∷ xs) (e, h) = ground (arith, total-le-excess p t xs h)

excess-filter :
    (p : Utxo → Bool) (t : ℕ) (ds : List Utxo)
    → total (excess p t) ds ≡ total (above t) (filter p ds)
excess-filter p t [] = refl
excess-filter p t (d ∷ ds) = ground (arith, excess-filter p t ds)

one-filter : (p : Utxo → Bool) (ds : List Utxo) → total (one p) ds ≡ length (filter p ds)
one-filter p [] = refl
one-filter p (d ∷ ds) = ground (arith, one-filter p ds)

one-All :
    (p : Utxo → Bool) (xs : List Utxo) → All (λ u. p u ≡ true) xs → total (one p) xs ≡ length xs
one-All p [] h = refl
one-All p (x ∷ xs) (e, h) = ground (arith, one-All p xs h)

-- The coin at position `k`, the first that is not taken.
abbrev threshold : ℕ → List Utxo → ℕ
threshold k [] = 0
threshold zero (e ∷ es) = e.satoshis
threshold (suc k) (e ∷ es) = threshold k es

threshold-le :
    (k : ℕ) (e : Utxo) (es : List Utxo) → All (IsAtLeast e) es → threshold k es ≤ e.satoshis
threshold-le k e [] h = omega arith
threshold-le zero e (d ∷ es) (r, h) = r
threshold-le (suc k) e (d ∷ es) (r, h) = threshold-le k e es h

above-eq-zero : (t : ℕ) (es : List Utxo) → All (λ u. u.satoshis ≤ t) es → total (above t) es ≡ 0
above-eq-zero t [] h = refl
above-eq-zero t (e ∷ es) (r, h) = omega (arith, above-eq-zero t es h)

total-take :
    (k : ℕ) (es : List Utxo)
    → IsSorted IsAtLeast es
    → k ≤ length es
    → k * threshold k es + total (above (threshold k es)) es ≡ total sats (take k es)
total-take zero [] h le = refl
total-take zero (e ∷ es) (a, h) le = omega (arith, above-eq-zero e.satoshis es a)
total-take (suc k) [] h le = absurd (omega arith)
total-take (suc k) (e ∷ es) (a, h) le =
    omega (arith, total-take k es h (omega arith), threshold-le k e es a)

module _ (p : Utxo → Bool) (utxos ds xs rest : List Utxo)
    (sorted : IsSorted IsAtLeast (filter p ds)) (same_coins : Perm ds utxos)
    (part : Perm (xs ++ rest) utxos) (passes : All (λ u. p u ≡ true) xs) where
  same_total : (f : Utxo → ℕ) → total f xs + total f rest ≡ total f ds
  same_total f = omega (
    arith,
    total-append f xs rest,
    total-perm f (xs ++ rest) utxos part,
    total-perm f ds utxos same_coins,
  )

  pub length-le-filter : length xs ≤ length (filter p ds)
  length-le-filter = omega (arith, same_total (one p), one-filter p ds, one-All p xs passes)

  pub total-le-largest : total sats xs ≤ total sats (take (length xs) (filter p ds))
  total-le-largest =
      let t = threshold (length xs) (filter p ds) in
      omega (
        arith,
        total-le-excess p t xs passes,
        same_total (excess p t),
        excess-filter p t ds,
        total-take (length xs) (filter p ds) sorted length-le-filter,
      )

pub filter-true : (xs : List Utxo) → filter (λ u. true) xs ≡ xs
filter-true [] = refl
filter-true (x ∷ xs) = rw (filter-true xs)

pub trivially : (xs : List Utxo) → All (λ u. ◌≡◌ {A = Bool} true true) xs
trivially [] = tt
trivially (x ∷ xs) = (refl, trivially xs)

-- The case in which every coin counts.
pub total-le-take :
    (utxos ds xs rest : List Utxo)
    → IsSorted IsAtLeast ds
    → Perm ds utxos
    → Perm (xs ++ rest) utxos
    → total sats xs ≤ total sats (take (length xs) ds)
total-le-take utxos ds xs rest sorted same_coins part = rw filter-true at (
    total-le-largest (λ u. true) utxos ds xs rest (rw filter-true sorted) same_coins part
      (trivially xs))
