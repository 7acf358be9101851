-- ===== src/Chain/Tip/Vote.antt =====
-- Whom the tip of `tipHeight` in src/chain/index.ts rests on.
use dash_faucet_cf.Base.{
  ℕ, zero, suc, ◌+◌, ◌-◌, ◌*◌, ◌/◌, ◌≤◌, ◌<◌, ◌≡◌, refl, sym, ◌∙◌, subst, ap, ◌⊎◌, inl, inr, true,
  false, Option, none, some, List, [], ◌∷◌, ◌++◌, leb, min, max, length, get_or, any, arith, All,
  Bool-cases, leb→le, leb_false→lt,
}
use dash_faucet_cf.Base.Sort.{sort, IsSorted, sort-IsSorted}
use dash_faucet_cf.Db.Sql.{count_where}
use dash_faucet_cf.Db.Selecting.{count_where-sort}
use dash_faucet_cf.Treasury.Broadcast.{is_empty}
use dash_faucet_cf.Chain.Tip.{
  Status, max_lag_blocks, trusted_heights, sampled_heights, greatest, median, evonode_vote,
  votes_of, tip_height,
}

abbrev Below : ℕ → ℕ → Type 0
Below a b = a ≤ b

All-above : (a : ℕ) (xs : List ℕ) → All (Below a) xs → count_where (leb a) xs ≡ length xs
All-above a [] h = refl
All-above a (x ∷ xs) (p, h) = ground (arith, All-above a xs)

-- In a list in order, all from a position on are at least what stands there.
count-sorted :
    (xs : List ℕ) (i : ℕ)
    → IsSorted Below xs
    → i < length xs
    → length xs ≤ count_where (leb (get_or xs i 0)) xs + i
count-sorted [] i h inside = absurd (omega arith)
count-sorted (x ∷ xs) zero (a, h) inside = ground (arith, All-above x xs a)
count-sorted (x ∷ xs) (suc i) (a, h) inside = ground (arith, count-sorted xs i h)

sorted : (xs : List ℕ) → IsSorted Below (sort leb xs)
sorted xs =
    sort-IsSorted Below leb (λ x y z p q. omega (arith, p, q)) (λ x y e. leb→le x y e)
      (λ x y e. omega (arith, leb_false→lt x y e)) xs

length-count : (xs : List ℕ) → count_where (λ x. true) xs ≡ length xs
length-count [] = refl
length-count (x ∷ xs) = omega (arith, length-count xs)

sort-length : (xs : List ℕ) → length (sort leb xs) ≡ length xs
sort-length xs =
    sym (length-count (sort leb xs)) ∙ count_where-sort (λ x. true) leb xs ∙ length-count xs

-- At least half are at least the median.
half-above :
    (x : ℕ) (xs : List ℕ) → length (x ∷ xs) ≤ 2 * count_where (leb (median (x ∷ xs))) (x ∷ xs)
unfolding median
half-above x xs =
    let ordered = sort leb (x ∷ xs) in
    let i = (length (x ∷ xs) - 1) / 2 in
    let many = count-sorted ordered i (sorted (x ∷ xs)) (omega (arith, sort-length (x ∷ xs))) in
    omega
      (arith, many, sort-length (x ∷ xs), count_where-sort (leb (get_or ordered i 0)) leb (x ∷ xs))

-- In a list in order, all up to a position are at most what stands there.
get_or-above : (x : ℕ) (xs : List ℕ) (i : ℕ) → All (Below x) xs → i < length xs → x ≤ get_or xs i 0
get_or-above x [] i h inside = absurd (omega arith)
get_or-above x (y ∷ ys) zero (p, h) inside = p
get_or-above x (y ∷ ys) (suc i) (p, h) inside = get_or-above x ys i h (omega arith)

count-up_to :
    (xs : List ℕ) (i : ℕ)
    → IsSorted Below xs
    → i < length xs
    → i + 1 ≤ count_where (λ h. leb h (get_or xs i 0)) xs
count-up_to [] i h inside = absurd (omega arith)
count-up_to (x ∷ xs) zero (a, h) inside = ground arith
count-up_to (x ∷ xs) (suc i) (a, h) inside =
    ground (arith, count-up_to xs i h (omega arith), get_or-above x xs i a (omega arith))

-- At least half are at most the median.
half-below :
    (x : ℕ) (xs : List ℕ)
    → length (x ∷ xs) ≤ 2 * count_where (λ h. leb h (median (x ∷ xs))) (x ∷ xs)
unfolding median
half-below x xs =
    let ordered = sort leb (x ∷ xs) in
    let i = (length (x ∷ xs) - 1) / 2 in
    let many = count-up_to ordered i (sorted (x ∷ xs)) (omega (arith, sort-length (x ∷ xs))) in
    omega (
      arith,
      many,
      sort-length (x ∷ xs),
      count_where-sort (λ h. leb h (get_or ordered i 0)) leb (x ∷ xs),
    )

-- Of the evonodes, several of them answered and at least half of those gave the height or more; or
-- a lone one gave it, and no configured provider gave any.
abbrev pub IsMajority : List ℕ → List ℕ → ℕ → Type 0
IsMajority trusted sampled tip =
    ((2 ≤ length sampled) × (length sampled ≤ 2 * count_where (leb tip) sampled))
    ⊎ ((trusted ≡ []) × (sampled ≡ tip ∷ []))

-- The height is not too high: a configured provider gave one at most the allowance below it or
-- above it, or the evonodes vote for it.
abbrev pub IsVotedFor : List ℕ → List ℕ → ℕ → Type 0
IsVotedFor trusted sampled tip =
    (any (λ h. leb tip (h + max_lag_blocks)) trusted ≡ true) ⊎ IsMajority trusted sampled tip

-- The height is not too low: no configured provider gave a greater one, nor did more than half of
-- several evonodes.
abbrev pub IsReached : List ℕ → List ℕ → ℕ → Type 0
IsReached trusted sampled tip =
    All (λ h. h ≤ tip) trusted
    × ((length sampled ≤ 1) ⊎ (length sampled ≤ 2 * count_where (λ h. leb h tip) sampled))

greatest-any :
    (xs : List ℕ) (bound : ℕ)
    → is_empty xs ≡ false
    → bound ≤ greatest xs + max_lag_blocks
    → any (λ h. leb bound (h + max_lag_blocks)) xs ≡ true
greatest-any [] bound h le = absurd (cc)
greatest-any (x ∷ []) bound h le = ground arith
greatest-any (x ∷ y ∷ xs) bound h le = ground (arith, greatest-any (y ∷ xs) bound)

greatest-append : (xs : List ℕ) (v : ℕ) → greatest (xs ++ v ∷ []) ≡ max (greatest xs) v
greatest-append [] v = omega arith
greatest-append (x ∷ xs) v = omega (arith, greatest-append xs v)

append-nonempty : (xs : List ℕ) (v : ℕ) → is_empty (xs ++ v ∷ []) ≡ false
append-nonempty [] v = refl
append-nonempty (x ∷ xs) v = refl

-- A vote of its own, beside what the configured providers gave.
vote-IsVotedFor :
    (trusted sampled : List ℕ) (v : ℕ)
    → IsVotedFor trusted sampled v
    → IsVotedFor trusted sampled (max (greatest trusted) v)
vote-IsVotedFor [] sampled v h = subst (IsVotedFor [] sampled) (omega arith) h
vote-IsVotedFor (x ∷ xs) sampled v h = elim (Bool-cases (leb v (greatest (x ∷ xs)))) [
  | inl below ↦ inl (
      greatest-any (x ∷ xs) (max (greatest (x ∷ xs)) v) refl
        (omega (arith, leb→le v (greatest (x ∷ xs)) below)))
  | inr above ↦
      let top : v ≡ max (greatest (x ∷ xs)) v =
        omega (arith, leb_false→lt v (greatest (x ∷ xs)) above) in
      subst (IsVotedFor (x ∷ xs) sampled) top h
]

evonode_vote-IsVotedFor :
    (trusted sampled : List ℕ) (v : ℕ)
    → evonode_vote trusted sampled ≡ some v
    → IsVotedFor trusted sampled v
unfolding evonode_vote
evonode_vote-IsVotedFor trusted [] v e = absurd (cc)
evonode_vote-IsVotedFor [] (only ∷ []) v e =
    subst (IsVotedFor [] (only ∷ [])) (ap (λ o. elim o [ none ↦ 0 | some w ↦ w ]) e)
      (inr (inr (refl, refl)))
evonode_vote-IsVotedFor (t ∷ ts) (only ∷ []) v e =
    subst (IsVotedFor (t ∷ ts) (only ∷ [])) (ap (λ o. elim o [ none ↦ 0 | some w ↦ w ]) e) (
      inl
        (greatest-any (t ∷ ts) (min only (greatest (t ∷ ts) + max_lag_blocks)) refl (omega arith)))
evonode_vote-IsVotedFor trusted (a ∷ b ∷ rest) v e =
    subst (IsVotedFor trusted (a ∷ b ∷ rest)) (ap (λ o. elim o [ none ↦ 0 | some w ↦ w ]) e)
      (inr (inl (omega arith, half-above a (b ∷ rest))))

votes-IsVotedFor :
    (trusted sampled : List ℕ) (vote : Option ℕ)
    → evonode_vote trusted sampled ≡ vote
    → is_empty (elim vote [ none ↦ trusted | some v ↦ trusted ++ v ∷ [] ]) ≡ false
    → IsVotedFor trusted sampled
        (greatest (elim vote [ none ↦ trusted | some v ↦ trusted ++ v ∷ [] ]))
votes-IsVotedFor trusted sampled none e some_ =
    inl (greatest-any trusted (greatest trusted) some_ (omega arith))
votes-IsVotedFor trusted sampled (some v) e some_ =
    rw (greatest-append trusted v)
      (vote-IsVotedFor trusted sampled v (evonode_vote-IsVotedFor trusted sampled v e))

greatest-All : (xs : List ℕ) (n : ℕ) → greatest xs ≤ n → All (λ h. h ≤ n) xs
greatest-All [] n le = tt
greatest-All (x ∷ xs) n le = (omega (arith, le), greatest-All xs n (omega (arith, le)))

count-le :
    (xs : List ℕ) (m n : ℕ) → m ≤ n → count_where (λ h. leb h m) xs ≤ count_where (λ h. leb h n) xs
count-le [] m n le = omega arith
count-le (x ∷ xs) m n le = ground (arith, count-le xs m n le)

votes-IsReached :
    (trusted sampled : List ℕ) → IsReached trusted sampled (greatest (votes_of trusted sampled))
unfolding evonode_vote
votes-IsReached trusted [] = (greatest-All trusted _ (omega arith), inl (omega arith))
votes-IsReached trusted (only ∷ []) =
    (greatest-All trusted _ (omega (arith, greatest-append trusted _)), inl (omega arith))
votes-IsReached trusted (a ∷ b ∷ rest) =
    let vote = median (a ∷ b ∷ rest) in
    let top = greatest-append trusted vote in
    (
      greatest-All trusted _ (omega (arith, top)),
      inr (
          omega (
            arith,
            half-below a (b ∷ rest),
            count-le (a ∷ b ∷ rest) vote (greatest (trusted ++ vote ∷ [])) (omega (arith, top)),
          )),
    )

-- A configured provider gave a height that is at most ten blocks below the tip or above it, or
-- several evonodes answered and at least half of those gave the tip or more, or a single one did
-- and no configured provider gave a height; and no configured provider's height is above the tip,
-- and where several evonodes answered, at least half of them are not above it.
pub tip_height-IsVotedFor :
    (statuses : List Status) (tip : ℕ)
    → tip_height statuses ≡ some tip
    → IsVotedFor (trusted_heights statuses) (sampled_heights statuses) tip
      × IsReached (trusted_heights statuses) (sampled_heights statuses) tip
unfolding tip_height
tip_height-IsVotedFor statuses tip e =
    let trusted = trusted_heights statuses in
    let sampled = sampled_heights statuses in
    elim (Bool-cases (is_empty (votes_of trusted sampled))) [
      | inl nobody ↦ absurd (cc (rw nobody at e))
      | inr somebody ↦
          subst (λ t. IsVotedFor trusted sampled t × IsReached trusted sampled t)
            (ap (λ o. elim o [ none ↦ 0 | some w ↦ w ]) (rw somebody at e))
            (
              votes-IsVotedFor trusted sampled (evonode_vote trusted sampled) refl somebody,
              votes-IsReached trusted sampled,
            )
    ]
