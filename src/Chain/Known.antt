-- ===== src/Chain/Known.antt =====
-- What each answer of `knowsTx` and `anyKnowsTx` of src/chain/index.ts rests on.
use dash_faucet_cf.Base.{
  ℕ, suc, ap, subst, String, ◌≡◌, ◌≢◌, refl, Bool, true, false, not, ◌&&◌, ◌||◌, Option, none, some,
  List, [], ◌∷◌, ◌⊎◌, inl, inr, Bool-cases, Option-cases, any, arith, length, ◌==◌, if◌then◌else◌,
}
use dash_faucet_cf.Chain.{Provider, knows_from, knows_tx, any_knows_tx}

-- A configured provider says yes.
abbrev pub vouches : String → Provider → Bool
vouches txid p = elim (p.has_tx txid) [ none ↦ false | some found ↦ found && not p.is_evonode ]

-- A provider says no.
abbrev pub denies : String → Provider → Bool
denies txid p = elim (p.has_tx txid) [ none ↦ false | some found ↦ not found ]

-- What an answer rests on: whether there was a no before, whether a configured provider says yes and
-- whether some provider says no.
abbrev KnownBy : Bool → Bool → Bool → Option Bool → Type 0
KnownBy answered vouched denied none = (answered ≡ false) × (vouched ≡ false) × (denied ≡ false)
KnownBy answered vouched denied (some true) = vouched ≡ true
KnownBy answered vouched denied (some false) = (vouched ≡ false) × ((answered || denied) ≡ true)

-- What an answer of the providers rests on: a yes on a configured provider's yes, a no on some no and
-- no such yes, and none on neither.
abbrev pub IsKnown : String → List Provider → Option Bool → Type 0
IsKnown txid ps none = (any (vouches txid) ps ≡ false) × (any (denies txid) ps ≡ false)
IsKnown txid ps (some true) = any (vouches txid) ps ≡ true
IsKnown txid ps (some false) = (any (vouches txid) ps ≡ false) × (any (denies txid) ps ≡ true)

-- The same of an answer of the active providers and the fallbacks: the fallbacks are heard only where
-- no active provider could say.
abbrev pub IsKnownToAny : String → List Provider → List Provider → Option Bool → Type 0
IsKnownToAny txid active fallback r =
    IsKnown txid active r × (r ≢ none) ⊎ IsKnown txid active none × IsKnown txid fallback r

deny-KnownBy :
    (answered vouched denied : Bool) (r : Option Bool)
    → KnownBy true vouched denied r
    → KnownBy answered vouched true r
deny-KnownBy answered vouched denied none (never, h, k) = absurd (cc)
deny-KnownBy answered vouched denied (some true) h = h
deny-KnownBy true vouched denied (some false) (h, k) = (h, refl)
deny-KnownBy false vouched denied (some false) (h, k) = (h, refl)

any-vouches :
    (txid : String) (p : Provider) (ps : List Provider) (answer : Option Bool)
    → p.has_tx txid ≡ answer
    → any (vouches txid) (p ∷ ps) ≡ (
        elim answer [ none ↦ false | some found ↦ found && not p.is_evonode ]
        || any (vouches txid) ps)
any-vouches txid p ps answer =
    ap (λ a.
      elim a [ none ↦ false | some found ↦ found && not p.is_evonode ] || any (vouches txid) ps)

any-denies :
    (txid : String) (p : Provider) (ps : List Provider) (answer : Option Bool)
    → p.has_tx txid ≡ answer
    → any (denies txid) (p ∷ ps)
      ≡ (elim answer [ none ↦ false | some found ↦ not found ] || any (denies txid) ps)
any-denies txid p ps answer =
    ap (λ a. elim a [ none ↦ false | some found ↦ not found ] || any (denies txid) ps)

knows_from-KnownBy :
    (txid : String) (ps : List Provider) (answered : Bool)
    → KnownBy answered (any (vouches txid) ps) (any (denies txid) ps) (knows_from txid ps answered)
unfolding knows_from
knows_from-KnownBy txid [] true = (refl, refl)
knows_from-KnownBy txid [] false = (refl, refl, refl)
knows_from-KnownBy txid (p ∷ ps) answered = elim (Option-cases (p.has_tx txid)) [
  | inl silent ↦
      rw (any-vouches txid p ps none silent, any-denies txid p ps none silent, silent)
        (knows_from-KnownBy txid ps answered)
  | inr (true, said) ↦ elim (Bool-cases p.is_evonode) [
    | inl evonode ↦
        rw
          (
            any-vouches txid p ps (some true) said,
            any-denies txid p ps (some true) said,
            said,
            evonode,
          )
          (knows_from-KnownBy txid ps answered)
    | inr configured ↦ rw (any-vouches txid p ps (some true) said, said, configured) refl
  ]
  | inr (false, said) ↦
      rw (any-vouches txid p ps (some false) said, any-denies txid p ps (some false) said, said)
        (deny-KnownBy answered (any (vouches txid) ps) (any (denies txid) ps)
          (knows_from txid ps true) (knows_from-KnownBy txid ps true))
]

-- What `knowsTx` says rests on the providers' answers.
knows_tx-IsKnown : (txid : String) (ps : List Provider) → IsKnown txid ps (knows_tx ps txid)
unfolding knows_tx
knows_tx-IsKnown txid ps = plain (knows_from txid ps false) (knows_from-KnownBy txid ps false)
  where
    plain :
        (r : Option Bool)
        → KnownBy false (any (vouches txid) ps) (any (denies txid) ps) r
        → IsKnown txid ps r
    plain none (h, v, d) = (v, d)
    plain (some true) h = h
    plain (some false) h = h

suc-zero : (n : ℕ) → (suc n == 0) ≡ false
suc-zero n = ground arith

some-none : (b : Bool) → some b ≢ none
some-none b h = absurd (cc)

-- Where `anyKnowsTx` says yes, a configured provider of those asked says yes, never a sampled
-- evonode alone; where it says no, some provider says no and none of those configured says yes;
-- where it cannot say, no provider says no and no configured one yes; and the fallbacks are heard
-- only where the active ones cannot say.
pub any_knows_tx-IsKnownToAny :
    (active fallback : List Provider) (txid : String)
    → IsKnownToAny txid active fallback (any_knows_tx active fallback txid)
unfolding any_knows_tx
any_knows_tx-IsKnownToAny active fallback txid = elim (Option-cases (knows_tx active txid)) [
  | inl silent ↦
      let none_said = subst (IsKnown txid active) silent (knows_tx-IsKnown txid active) in
      rw (any_knows_tx, silent) (inr (none_said, later fallback))
  | inr (known, said) ↦
      rw (any_knows_tx, said)
        (inl (subst (IsKnown txid active) said (knows_tx-IsKnown txid active), some-none known))
]
  where
    later :
        (fs : List Provider) → IsKnown txid fs (if length fs == 0 then none else knows_tx fs txid)
    later [] = (refl, refl)
    later (f ∷ fs) = rw (suc-zero (length fs)) (knows_tx-IsKnown txid (f ∷ fs))
