-- ===== src/Db/Sql.antt =====
-- The SQL that the handlers run, over a table as a list of rows.
use dash_faucet_cf.Base.{
  ℕ, suc, ◌+◌, ◌/◌, ◌≤◌, ◌≡◌, refl, sym, ap, ◌∙◌, subst, Bool, true, false, not, none, some, List,
  [], ◌∷◌, ◌++◌, arith, if◌then◌else◌, filter, find, any, max, min, Bool-cases, inl, inr, All,
}

module _ {ℓ} {A : Type ℓ} where
  -- `DELETE FROM xs WHERE p`
  abbrev pub delete_where : (A → Bool) → List A → List A
  delete_where p xs = filter (λ x. not (p x)) xs

  -- `INSERT OR REPLACE`, where `p` finds the rows with the key of the new one
  abbrev pub insert_or_replace : (A → Bool) → A → List A → List A
  insert_or_replace p x xs = delete_where p xs ++ x ∷ []

  -- `INSERT OR IGNORE`
  abbrev pub insert_or_ignore : (A → Bool) → A → List A → List A
  insert_or_ignore p x xs = if any p xs then xs else xs ++ x ∷ []

  -- `UPDATE xs SET ... WHERE p`
  abbrev pub update_where : (A → Bool) → (A → A) → List A → List A
  update_where p f [] = []
  update_where p f (x ∷ xs) = (if p x then f x else x) ∷ update_where p f xs

  -- `SELECT COUNT(*) ... WHERE p`
  abbrev pub count_where : (A → Bool) → List A → ℕ
  count_where p [] = 0
  count_where p (x ∷ xs) = if p x then suc (count_where p xs) else count_where p xs

  -- `SELECT MIN(f) ... WHERE p`, or the default where no row qualifies
  abbrev pub min_or : ℕ → (A → ℕ) → List A → ℕ
  min_or d f [] = d
  min_or d f (x ∷ []) = f x
  min_or d f (x ∷ y ∷ xs) = min (f x) (min_or d f (y ∷ xs))

-- `Math.ceil(ms / 1000)`
abbrev pub ceil_seconds : ℕ → ℕ
ceil_seconds ms = (ms + 999) / 1000

-- `Math.max(1, Math.ceil(ms / 1000))`, the seconds to wait
abbrev pub retry_seconds : ℕ → ℕ
retry_seconds ms = max 1 (ceil_seconds ms)

module _ {ℓ} {A : Type ℓ} where
  pub count_where-append :
      (p : A → Bool) (xs ys : List A)
      → count_where p (xs ++ ys) ≡ count_where p xs + count_where p ys
  count_where-append p [] ys = omega arith
  count_where-append p (x ∷ xs) ys = ground (arith, count_where-append p xs ys)

  pub count_where-filter-le :
      (p q : A → Bool) (xs : List A) → count_where p (filter q xs) ≤ count_where p xs
  count_where-filter-le p q [] = omega arith
  count_where-filter-le p q (x ∷ xs) = ground (arith, count_where-filter-le p q xs)

  pub any-append : (p : A → Bool) (xs ys : List A) → any p xs ≡ true → any p (xs ++ ys) ≡ true
  any-append p [] ys h = absurd (cc)
  any-append p (x ∷ xs) ys h = ground (arith, any-append p xs ys)

  pub any-append_self :
      (p : A → Bool) (xs : List A) (y : A) → p y ≡ true → any p (xs ++ y ∷ []) ≡ true
  any-append_self p [] y h = ground arith
  any-append_self p (x ∷ xs) y h = ground (arith, any-append_self p xs y h)

  pub delete_where-none : (p : A → Bool) (xs : List A) → find p xs ≡ none → delete_where p xs ≡ xs
  delete_where-none p [] h = refl
  delete_where-none p (x ∷ xs) h = elim (Bool-cases (p x)) [
    | inl holds ↦ ground arith
    | inr fails ↦ ground (arith, delete_where-none p xs)
  ]

  pub find-append_new :
      (p : A → Bool) (xs : List A) (y : A)
      → find p xs ≡ none
      → p y ≡ true
      → find p (xs ++ y ∷ []) ≡ some y
  find-append_new p [] y h holds = ground arith
  find-append_new p (x ∷ xs) y h holds = ground (arith, find-append_new p xs y)

  pub find-cons_hit :
      (p : A → Bool) (x : A) (xs : List A) (y : A) → p x ≡ true → find p (x ∷ xs) ≡ some y → x ≡ y
  find-cons_hit p x xs y holds found =
      ap (λ o. elim o [ none ↦ x | some z ↦ z ])
        (ap (λ b. if b then some x else find p xs) (sym holds) ∙ found)

  pub find-cons_miss :
      (p : A → Bool) (x : A) (xs : List A) (y : A)
      → p x ≡ false
      → find p (x ∷ xs) ≡ some y
      → find p xs ≡ some y
  find-cons_miss p x xs y fails found =
      ap (λ b. if b then some x else find p xs) (sym fails) ∙ found

  -- The first row that qualifies stays the first where a deletion keeps it.
  pub find-filter :
      (p q : A → Bool) (xs : List A) (y : A)
      → find p xs ≡ some y
      → q y ≡ true
      → find p (filter q xs) ≡ some y
  find-filter p q [] y found kept = absurd (cc)
  find-filter p q (x ∷ xs) y found kept = elim (Bool-cases (p x)) [
    | inl holds ↦
        rw (subst (λ z. q z ≡ true) (sym (find-cons_hit p x xs y holds found)) kept)
          (rw holds (ap some (find-cons_hit p x xs y holds found)))
    | inr fails ↦ ground (arith, find-filter p q xs y)
  ]

module _ {ℓ κ} {A : Type ℓ} (P : A → Type κ) where
  pub find-All : (p : A → Bool) (xs : List A) (x : A) → find p xs ≡ some x → All P xs → P x
  find-All p [] x found h = absurd (cc)
  find-All p (y ∷ xs) x found (q, h) = elim (Bool-cases (p y)) [
    | inl holds ↦ subst P (find-cons_hit p y xs x holds found) q
    | inr fails ↦ find-All p xs x (find-cons_miss p y xs x fails found) h
  ]
