-- ===== src/Base/Sort.antt =====
-- `xs.sort((a, b) => ...)`: JavaScript's sort is stable, and so is this insertion sort.
use mathlib.Core.Path.{◌≡◌, refl}
use mathlib.Core.Bool.{Bool, true, false}
use mathlib.Core.Logic.{∥∥₁_elim, inl, inr}
use mathlib.Core.List.{List, [], ◌∷◌, ◌++◌, reverse, reverse-cons, Perm, perm_middle, Permᴰ}
use mathlib.Core.List.Perm
use native.Mathlib.Omega.{arith}
use native.Mathlib.Nat.{ℕ_set}
use dash_faucet_cf.Base.Tests.{if◌then◌else◌, Bool-cases}
use dash_faucet_cf.Base.Lists.{filter, total, All, All-append, All-filter, All-map, All-reverse}
use Prim.Native.Nat.{ℕ}

module _ {ℓ} {A : Type ℓ} (before : A → A → Bool) where
  unfoldable pub insert_sorted : A → List A → List A
  insert_sorted x [] = x ∷ []
  insert_sorted x (y ∷ ys) = if before x y then x ∷ y ∷ ys else y ∷ insert_sorted x ys

  unfoldable pub sort : List A → List A
  unfolding insert_sorted
  sort [] = []
  sort (x ∷ xs) = insert_sorted x (sort xs)

  insert_sorted-perm : (x : A) (ys : List A) → Perm (insert_sorted x ys) (x ∷ ys)
  unfolding insert_sorted
  insert_sorted-perm x [] = Perm.refl (x ∷ [])
  insert_sorted-perm x (y ∷ ys) = elim (Bool-cases (before x y)) [
    | inl e ↦ rw e (Perm.refl (x ∷ y ∷ ys))
    | inr e ↦ rw e (Perm.trans (Perm.cons y (insert_sorted-perm x ys)) (Perm.swap x y ys))
  ]

  pub sort-perm : (xs : List A) → Perm (sort xs) xs
  unfolding sort
  sort-perm [] = Perm.refl []
  sort-perm (x ∷ xs) = Perm.trans (insert_sorted-perm x (sort xs)) (Perm.cons x (sort-perm xs))

module _ {ℓ} {A : Type ℓ} (R : A → A → Type 0) where
  abbrev pub IsSorted : List A → Type 0
  IsSorted [] = Unit
  IsSorted (x ∷ xs) = All (R x) xs × IsSorted xs

  pub filter-IsSorted : (p : A → Bool) (xs : List A) → IsSorted xs → IsSorted (filter p xs)
  filter-IsSorted p [] h = tt
  filter-IsSorted p (x ∷ xs) (a, h) =
      ground (arith, filter-IsSorted p xs h, All-filter (R x) p xs a)

  -- The comparison decides `R`, which is a total preorder.
  module _ (before : A → A → Bool) (trans : (x y z : A) → R x y → R y z → R x z)
      (yes_R : (x y : A) → before x y ≡ true → R x y)
      (no_R : (x y : A) → before x y ≡ false → R y x) where
    insert_sorted-All :
        (z x : A) (ys : List A) → R z x → All (R z) ys → All (R z) (insert_sorted before x ys)
    unfolding insert_sorted
    insert_sorted-All z x [] r h = (r, tt)
    insert_sorted-All z x (y ∷ ys) r (q, h) = ground (arith, insert_sorted-All z x ys r h)

    insert_sorted-IsSorted :
        (x : A) (ys : List A) → IsSorted ys → IsSorted (insert_sorted before x ys)
    unfolding insert_sorted
    insert_sorted-IsSorted x [] h = (tt, tt)
    insert_sorted-IsSorted x (y ∷ ys) (a, h) = elim (Bool-cases (before x y)) [
      | inl e ↦
          let r = yes_R x y e in
          rw e ((r, All-map {P = R y} {Q = R x} (λ z q. trans x y z r q) ys a), (a, h))
      | inr e ↦ rw e (insert_sorted-All y x ys (no_R x y e) a, insert_sorted-IsSorted x ys h)
    ]

    pub sort-IsSorted : (xs : List A) → IsSorted (sort before xs)
    unfolding sort
    sort-IsSorted [] = tt
    sort-IsSorted (x ∷ xs) = insert_sorted-IsSorted x (sort before xs) (sort-IsSorted xs)

module _ {ℓ} {A : Type ℓ} (R S : A → A → Type 0) (flip : (x y : A) → R x y → S y x) where
  append-IsSorted :
      (xs : List A) (y : A) → IsSorted S xs → All (λ x. S x y) xs → IsSorted S (xs ++ y ∷ [])
  append-IsSorted [] y h a = (tt, tt)
  append-IsSorted (x ∷ xs) y (b, h) (p, a) =
      (All-append (S x) xs (y ∷ []) b (p, tt), append-IsSorted xs y h a)

  pub reverse-IsSorted : (xs : List A) → IsSorted R xs → IsSorted S (reverse xs)
  reverse-IsSorted [] h = tt
  reverse-IsSorted (x ∷ xs) (a, h) = rw reverse-cons (
      append-IsSorted (reverse xs) x (reverse-IsSorted xs h)
        (All-reverse (λ y. S y x) xs (All-map {P = R x} {Q = λ y. S y x} (λ y r. flip x y r) xs a)))

module _ {ℓ} {A : Type ℓ} where
  -- Sums do not depend on the order.
  total-permᴰ : (f : A → ℕ) (xs ys : List A) → Permᴰ xs ys → total f xs ≡ total f ys
  total-permᴰ f xs ys Permᴰ.nil = refl
  total-permᴰ f xs ys (Permᴰ.cons {a} {b} {l₁ = l} {l₂ = m} e p) =
      rw e (omega (arith, total-permᴰ f l m p))
  total-permᴰ f xs ys (Permᴰ.swap {a} {b} {a'} {b'} {l} e d) = rw (e, d) (omega arith)
  total-permᴰ f xs ys (Permᴰ.trans {l₂ = m} p q) =
      omega (arith, total-permᴰ f xs m p, total-permᴰ f m ys q)

  pub total-perm : (f : A → ℕ) (xs ys : List A) → Perm xs ys → total f xs ≡ total f ys
  total-perm f xs ys p = ∥∥₁_elim p (ℕ_set _ _) (total-permᴰ f xs ys)

  -- A filter splits a list in two.
  pub filter-perm :
      (p q : A → Bool)
      → ((x : A) → p x ≡ true → q x ≡ false)
      → ((x : A) → p x ≡ false → q x ≡ true)
      → (xs : List A) → Perm (filter p xs ++ filter q xs) xs
  filter-perm p q h k [] = Perm.refl []
  filter-perm p q h k (x ∷ xs) = elim (Bool-cases (p x)) [
    | inl e ↦ rw (e, h x e) (Perm.cons x (filter-perm p q h k xs))
    | inr e ↦
        rw (e, k x e)
          (Perm.trans (perm_middle (filter p xs) (filter q xs))
            (Perm.cons x (filter-perm p q h k xs)))
  ]
