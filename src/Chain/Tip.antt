-- ===== src/Chain/Tip.antt =====
-- The best-known height in src/chain/index.ts: `heights`, `tipHeight` and `surveyWith`.
pub mod Vote
use dash_faucet_cf.Base.{
  ℕ, ◌+◌, ◌-◌, ◌/◌, Bool, true, false, ◌&&◌, ◌||◌, not, Option, none, some, List, [], ◌∷◌, ◌++◌,
  map, ltb, leb, min, max, if◌then◌else◌, length, filter, get_or, any,
}
use dash_faucet_cf.Base.Sort.{sort}
use dash_faucet_cf.Treasury.Broadcast.{is_empty}
use dash_faucet_cf.Chain.{Provider, Client}

abbrev pub max_lag_blocks : ℕ
max_lag_blocks = 10

-- A provider with the height that it gave.
pub record Status : Type 0 where
  pub provider : Provider
  pub height : Option ℕ

-- `heights`, index-aligned with the providers.
abbrev pub heights : List Provider → List Status
heights providers = map (λ p. record { provider = p; height = p.get_height }) providers

abbrev pub has_height : Status → Bool
has_height s = elim (s.height) [ none ↦ false | some h ↦ true ]

abbrev pub height_of : Status → ℕ
height_of s = elim (s.height) [ none ↦ 0 | some h ↦ h ]

-- The heights that the configured providers gave, and those of the sampled evonodes.
abbrev pub trusted_heights : List Status → List ℕ
trusted_heights statuses =
    map height_of (filter (λ s. has_height s && not s.provider.is_evonode) statuses)

abbrev pub sampled_heights : List Status → List ℕ
sampled_heights statuses =
    map height_of (filter (λ s. has_height s && s.provider.is_evonode) statuses)

-- `Math.max(...xs)` of a list that is not empty
abbrev pub greatest : List ℕ → ℕ
greatest [] = 0
greatest (x ∷ xs) = max x (greatest xs)

-- `sorted[Math.floor((sorted.length - 1) / 2)]`
unfoldable pub median : List ℕ → ℕ
median xs = get_or (sort leb xs) ((length xs - 1) / 2) 0

-- The vote of the sampled evonodes: their median, or a lone answer held down to the allowance.
unfoldable pub evonode_vote : List ℕ → List ℕ → Option ℕ
unfolding median
evonode_vote trusted [] = none
evonode_vote trusted (only ∷ []) =
    some (if is_empty trusted then only else min only (greatest trusted + max_lag_blocks))
evonode_vote trusted (a ∷ b ∷ rest) = some (median (a ∷ b ∷ rest))

abbrev pub votes_of : List ℕ → List ℕ → List ℕ
votes_of trusted sampled = elim (evonode_vote trusted sampled) [
  | none ↦ trusted
  | some v ↦ trusted ++ v ∷ []
]

-- `tipHeight`
unfoldable pub tip_height : List Status → Option ℕ
unfolding evonode_vote
tip_height statuses =
    let votes = votes_of (trusted_heights statuses) (sampled_heights statuses) in
    if is_empty votes then none else some (greatest votes)

-- The evonodes that a survey benches: those that failed, and those far above the median.
unfoldable pub benched : List Status → List Provider
benched statuses =
    let sampled = sampled_heights statuses in
    map (λ s. s.provider)
      (filter
        (λ s.
          s.provider.is_evonode
          && (not (has_height s)
              || (ltb 1 (length sampled) && ltb (median sampled + max_lag_blocks) (height_of s))))
        statuses)

-- `active`: the fixed providers and the sample.
abbrev pub active : Client → List Provider
active c = c.primary ++ c.sampled

-- `surveyWith`: the fallbacks are asked where no source of DAPI among the active ones answered.
unfoldable pub survey_with : Client → List Status
survey_with c =
    let statuses = heights (active c) in
    if any (λ s. s.provider.is_dapi && has_height s) statuses || is_empty c.fallback
    then statuses
    else statuses ++ heights c.fallback
