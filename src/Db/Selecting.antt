-- ===== src/Db/Selecting.antt =====
-- What a query with ORDER BY and LIMIT keeps of the rows.
use dash_faucet_cf.Base.{
  ℕ, zero, suc, ◌≤◌, ◌≡◌, refl, Bool, false, List, [], ◌∷◌, arith, take, All, Bool-cases, inl, inr,
}
use dash_faucet_cf.Base.Sort.{sort, insert_sorted}
use dash_faucet_cf.Db.Sql.{count_where}

module _ {ℓ} {A : Type ℓ} where
  pub count_where-take-le :
      (p : A → Bool) (n : ℕ) (xs : List A) → count_where p (take n xs) ≤ count_where p xs
  count_where-take-le p zero xs = omega arith
  count_where-take-le p (suc n) [] = omega arith
  count_where-take-le p (suc n) (x ∷ xs) = ground (arith, count_where-take-le p n xs)

  count_where-insert :
      (p : A → Bool) (before : A → A → Bool) (x : A) (xs : List A)
      → count_where p (insert_sorted before x xs) ≡ count_where p (x ∷ xs)
  unfolding insert_sorted
  count_where-insert p before x [] = refl
  count_where-insert p before x (y ∷ ys) = ground (arith, count_where-insert p before x ys)

  pub count_where-sort :
      (p : A → Bool) (before : A → A → Bool) (xs : List A)
      → count_where p (sort before xs) ≡ count_where p xs
  unfolding sort
  count_where-sort p before [] = refl
  count_where-sort p before (x ∷ xs) =
      ground (arith, count_where-insert p before x (sort before xs), count_where-sort p before xs)

  All-insert {κ} :
      (P : A → Type κ) (before : A → A → Bool) (x : A) (xs : List A)
      → P x
      → All P xs
      → All P (insert_sorted before x xs)
  unfolding insert_sorted
  All-insert P before x [] p h = (p, tt)
  All-insert P before x (y ∷ ys) p (q, h) = elim (Bool-cases (before x y)) [
    | inl e ↦ rw e (p, (q, h))
    | inr e ↦ rw e (q, All-insert P before x ys p h)
  ]

  pub All-sort {κ} :
      (P : A → Type κ) (before : A → A → Bool) (xs : List A) → All P xs → All P (sort before xs)
  unfolding sort
  All-sort P before [] h = tt
  All-sort P before (x ∷ xs) (p, h) =
      All-insert P before x (sort before xs) p (All-sort P before xs h)

  pub count-zero→All :
      (p : A → Bool) (xs : List A) → count_where p xs ≤ 0 → All (λ x. p x ≡ false) xs
  count-zero→All p [] h = tt
  count-zero→All p (x ∷ xs) h = ground (arith, count-zero→All p xs)

  pub All-take {κ} : (P : A → Type κ) (n : ℕ) (xs : List A) → All P xs → All P (take n xs)
  All-take P zero xs h = tt
  All-take P (suc n) [] h = tt
  All-take P (suc n) (x ∷ xs) (p, h) = (p, All-take P n xs h)
