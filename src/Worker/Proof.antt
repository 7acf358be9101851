-- ===== src/Worker/Proof.antt =====
-- What `verifyCaptcha` of src/index.ts takes for a proof, and that a capToken proves only once.
use dash_faucet_cf.Base.{
  ℕ, ◌≤◌, String, ◌≡◌, ◌≢◌, refl, subst, sym, ap, ◌∙◌, ◌⊎◌, inl, inr, Bool, true, false, ◌||◌, not,
  Option, none, some, List, same, Bool-cases, if◌then◌else◌, All, arith,
}
use dash_faucet_cf.Base.Text.{codes}
use dash_faucet_cf.Config.{ProofTier, soft, turnstile}
use dash_faucet_cf.Db.{Db}
use dash_faucet_cf.Captcha.{CapParams}
use dash_faucet_cf.Captcha.Token.{CapTokenCheck, valid, invalid, verify_cap_token}
use dash_faucet_cf.Captcha.Token.Signed.{IsMac}
use dash_faucet_cf.Captcha.Token.Presented.{IsAuthentic, verify_cap_token-IsAuthentic}
use dash_faucet_cf.Treasury.Tokens.{
  consume_cap_token, Event, time_of, after_all, consume_cap_token-once,
}
use dash_faucet_cf.Worker.{
  WorkerConfig, Body, Outside, TurnstileOutcome, passed, failed, cap_tier, or_text, presented,
  verify_presented, CaptchaOutcome, proved, denied, burn, outcome_of, verify_other, verify_captcha,
}

-- A capToken that the faucet signed, that is in time and fresh, and whose work is worth the tier.
abbrev pub IsWorkedFor : Outside → WorkerConfig → Body → Db → ProofTier → Type 0
IsWorkedFor o cfg body db tier =
    (token : String) × (expires : ℕ) × (params : CapParams) × (presented body ≡ some token)
    × IsAuthentic o.crypto (codes cfg.cap_secret) (codes token) o.verified_at expires params
    × ((consume_cap_token token expires o.burned_at db).1 ≡ true)
    × (cap_tier cfg params ≡ tier)

-- A token that Turnstile confirmed.
abbrev pub IsConfirmed : Outside → WorkerConfig → Body → ProofTier → Type 0
IsConfirmed o cfg body tier =
    (token : String) × (or_text body.turnstile_token none ≡ some token)
    × (same cfg.turnstile_secret "" ≡ false)
    × (o.site_verify token ≡ passed)
    × (tier ≡ turnstile)

abbrev pub IsUnguarded : WorkerConfig → ProofTier → Type 0
IsUnguarded cfg tier =
    (same cfg.cap_secret "" ≡ true) × (same cfg.turnstile_secret "" ≡ true) × (tier ≡ soft)

abbrev pub IsProven : Outside → WorkerConfig → Body → Db → ProofTier → Type 0
IsProven o cfg body db tier =
    IsWorkedFor o cfg body db tier ⊎ IsConfirmed o cfg body tier ⊎ IsUnguarded cfg tier

tier_of : (a b : ProofTier) → proved a ≡ proved b → a ≡ b
tier_of a b h = cc (h)

outcome_of-passed :
    (t : TurnstileOutcome) (tier : ProofTier)
    → outcome_of t ≡ proved tier
    → (t ≡ passed) × (tier ≡ turnstile)
outcome_of-passed passed tier h = (refl, sym (tier_of turnstile tier h))
outcome_of-passed (failed none) tier h = absurd (cc)
outcome_of-passed (failed (some reason)) tier h = absurd (cc)

-- The two secrets, by cases.
no_secret :
    (t c : Bool) (tier : ProofTier)
    → (if not t || not c then denied 400 "Captcha token required" else proved soft) ≡ proved tier
    → (c ≡ true) × (t ≡ true) × (tier ≡ soft)
no_secret true true tier h = (refl, refl, sym (tier_of soft tier h))
no_secret true false tier h = absurd (cc)
no_secret false c tier h = absurd (cc)

confirmed_or_unguarded :
    (t c : Bool) (answer : TurnstileOutcome) (tier : ProofTier)
    → (if not t
        then outcome_of answer
        else if not c
        then denied 400 "Captcha token required"
        else proved soft)
      ≡ proved tier
    → ((t ≡ false) × (answer ≡ passed) × (tier ≡ turnstile))
      ⊎ ((c ≡ true) × (t ≡ true) × (tier ≡ soft))
confirmed_or_unguarded false c answer tier h =
    let (pass, worth) = outcome_of-passed answer tier h in inl (refl, pass, worth)
confirmed_or_unguarded true true answer tier h = inr (refl, refl, sym (tier_of soft tier h))
confirmed_or_unguarded true false answer tier h = absurd (cc)

configured :
    (empty : Bool) (burned : Db × CaptchaOutcome) (db : Db) (tier : ProofTier)
    → (if empty then (db, denied 400 "Proof-of-work captcha is not configured") else burned).1
      ≡ proved tier
    → (empty ≡ false) × (burned.1 ≡ proved tier)
configured true burned db tier h = absurd (cc)
configured false burned db tier h = (refl, h)

module _ (o : Outside) (cfg : WorkerConfig) where
  verify_other-proved :
      (body : Body) (token : Option String) (tier : ProofTier)
      → or_text body.turnstile_token none ≡ token
      → verify_other o cfg token ≡ proved tier
      → IsConfirmed o cfg body tier ⊎ IsUnguarded cfg tier
  unfolding verify_other
  verify_other-proved body none tier e h =
      inr (no_secret (same cfg.turnstile_secret "") (same cfg.cap_secret "") tier h)
  verify_other-proved body (some token) tier e h =
      elim (confirmed_or_unguarded (same cfg.turnstile_secret "") (same cfg.cap_secret "")
        (o.site_verify token) tier h) [
          | inl (secret, pass, worth) ↦ inl (token, e, secret, pass, worth)
          | inr unguarded ↦ inr unguarded
        ]

  burn-proved :
      (token : String) (check : CapTokenCheck) (db : Db) (tier : ProofTier)
      → (burn o cfg token check db).1 ≡ proved tier
      → (expires : ℕ) × (params : CapParams) × (check ≡ valid expires params)
        × ((consume_cap_token token expires o.burned_at db).1 ≡ true)
        × (cap_tier cfg params ≡ tier)
  unfolding burn
  burn-proved token (invalid reason) db tier h = absurd (cc)
  burn-proved token (valid expires params) db tier h =
      elim (Bool-cases (consume_cap_token token expires o.burned_at db).1) [
        | inl fresh ↦ (expires, params, refl, fresh, ground (arith, h))
        | inr used ↦ absurd (ground (arith, h))
      ]

  verify_presented-proved :
      (body : Body) (token : Option String) (db : Db) (tier : ProofTier)
      → IsMac o.crypto
      → presented body ≡ token
      → (verify_presented o cfg body token db).1 ≡ proved tier
      → IsProven o cfg body db tier
  unfolding verify_presented
  verify_presented-proved body none db tier is_mac e h =
      inr (verify_other-proved body (or_text body.turnstile_token none) tier refl h)
  verify_presented-proved body (some token) db tier is_mac e h =
      let check = verify_cap_token o.crypto (codes cfg.cap_secret) (codes token) o.verified_at in
      let (secret, fires) =
        configured (same cfg.cap_secret "") (burn o cfg token check db) db tier h in
      let (expires, params, signed, fresh, worth) = burn-proved token check db tier fires in
      inl (
        token,
        expires,
        params,
        e,
        (verify_cap_token-IsAuthentic o.crypto (codes cfg.cap_secret) (codes token) o.verified_at
              expires params is_mac).0
            signed,
        fresh,
        worth,
      )

-- proven
pub verify_captcha-IsProven :
    (o : Outside) (cfg : WorkerConfig) (body : Body) (db : Db) (tier : ProofTier)
    → IsMac o.crypto
    → (verify_captcha o cfg body db).1 ≡ proved tier
    → IsProven o cfg body db tier
unfolding verify_captcha
verify_captcha-IsProven o cfg body db tier is_mac h =
    verify_presented-proved o cfg body (presented body) db tier is_mac refl h

-- A capToken that is taken is burned.
burn-burned :
    (o : Outside) (cfg : WorkerConfig) (token : String) (expires : ℕ) (params : CapParams) (db : Db)
    → (burn o cfg token (valid expires params) db).0
      ≡ (consume_cap_token token expires o.burned_at db).0
unfolding burn
burn-burned o cfg token expires params db =
    elim (Bool-cases (consume_cap_token token expires o.burned_at db).1) [
      | inl fresh ↦ rw fresh refl
      | inr used ↦ rw used refl
    ]

-- What a request with a capToken has shown of it.
verify_captcha-burn :
    (o : Outside) (cfg : WorkerConfig) (body : Body) (token : String) (db : Db) (tier : ProofTier)
    → presented body ≡ some token
    → (verify_captcha o cfg body db).1 ≡ proved tier
    → (verify_captcha o cfg body db
        ≡ burn o cfg token
            (verify_cap_token o.crypto (codes cfg.cap_secret) (codes token) o.verified_at)
            db)
unfolding verify_captcha verify_presented
verify_captcha-burn o cfg body token db tier e h =
    let whole = ap (λ t. verify_presented o cfg body t db) e in
    let (secret, fires) =
      configured (same cfg.cap_secret "") _ db tier (sym (ap (λ r. r.1) whole) ∙ h) in
    whole ∙ rw secret refl

-- A capToken that is valid until some time and proved a request proves no other request, under
-- whichever of its two names it comes, that reaches the Treasury by then, whatever issues,
-- payouts, maintenance of the inventory and of the wallet, snapshots and uses of tokens come in
-- between at times up to then.
pub verify_captcha-once :
    (o later : Outside) (cfg : WorkerConfig) (body again : Body) (token : String) (until : ℕ)
    (params : CapParams) (tier other : ProofTier) (es : List Event) (db : Db)
    → presented body ≡ some token
    → presented again ≡ some token
    → verify_cap_token o.crypto (codes cfg.cap_secret) (codes token) o.verified_at
      ≡ valid until params
    → (verify_captcha o cfg body db).1 ≡ proved tier
    → All (λ e. time_of e ≤ until) es
    → later.burned_at ≤ until
    → (verify_captcha later cfg again (after_all es (verify_captcha o cfg body db).0)).1
      ≢ proved other
verify_captcha-once o later cfg body again token until params tier other es db p q signed first
      times soon second =
    let burned =
      verify_captcha-burn o cfg body token db tier p first
      ∙ ap (λ c. burn o cfg token c db) signed in
    let (expires, shape, found, fresh, worth) =
      burn-proved o cfg token (valid until params) db tier (sym (ap (λ r. r.1) burned) ∙ first) in
    let state = ap (λ r. r.0) burned ∙ burn-burned o cfg token until params db in
    let after = after_all es (verify_captcha o cfg body db).0 in
    let (expires2, shape2, found2, fresh2, worth2) = burn-proved later cfg token _ after other (
      sym (ap (λ r. r.1) (verify_captcha-burn later cfg again token after other q second))
      ∙ second) in
    let until_is : until ≡ expires = cc (found) in
    let fresh_until =
      subst (λ u. (consume_cap_token token u o.burned_at db).1 ≡ true) (sym until_is) fresh in
    let stale =
      consume_cap_token-once token until o.burned_at later.burned_at expires2 es db fresh_until
        times soon in
    cc (
      sym (ap (λ d. (consume_cap_token token expires2 later.burned_at (after_all es d)).1) state)
          ∙ fresh2,
      stale,
    )
