-- ===== src/Captcha/Solving/Earned.antt =====
-- What `verifySolutions` of src/cap.ts takes, and what `verifyCapToken` then says of the capToken.
use dash_faucet_cf.Base.{
  ℕ, ◌+◌, ◌≤◌, ◌<◌, ◌^◌, ◌≡◌, refl, sym, ap, ◌∙◌, Bool, true, false, Option, none, some, List, [],
  ◌∷◌, arith, ltb, ◌==◌, not, length, if◌then◌else◌, subst, All, ltb_false→le,
}
use dash_faucet_cf.Captcha.{CapParams, Crypto, cap_token_grace_ms, challenge_ttl_ms}
use dash_faucet_cf.Captcha.Hex.{IsByte}
use dash_faucet_cf.Captcha.Seeded.{sub_challenge}
use dash_faucet_cf.Captcha.Token.{parsed, derive_cap_token, mint_challenge, valid, verify_cap_token}
use dash_faucet_cf.Captcha.Token.Signed.{IsMac, IsShape, parse_token-mint_challenge}
use dash_faucet_cf.Captcha.Token.Presented.{verify_cap_token-derived}
use dash_faucet_cf.Captcha.Solving.{
  check_solution, RedeemResult, redeemed, refused, threw, max_safe_integer, check_from, redeem,
  verify_solutions,
}

-- Each solution is a safe integer that solves the sub-challenge of its place, from the i-th on.
abbrev pub AllSolve : Crypto → List ℕ → CapParams → ℕ → List (Option ℕ) → Type 0
AllSolve k token params i [] = Unit
AllSolve k token params i (solution ∷ solutions) =
    ((nonce : ℕ) × (solution ≡ some nonce)
      × (nonce ≤ max_safe_integer)
      × (check_solution k (sub_challenge token i params).salt (sub_challenge token i params).target
            nonce
          ≡ some true))
    × AllSolve k token params (i + 1) solutions

-- One round of the loop that goes on.
step_taken :
    (large : Bool) (answer : Option Bool) (rest : RedeemResult) (cap_token : List ℕ) (expires : ℕ)
    → (if large then refused "Invalid captcha solutions" else elim answer [
      | none ↦ threw
      | some false ↦ refused "Captcha solution rejected"
      | some true ↦ rest
    ])
      ≡ redeemed cap_token expires
    → (large ≡ false) × (answer ≡ some true) × (rest ≡ redeemed cap_token expires)
step_taken true answer rest cap_token expires h = absurd (cc)
step_taken false none rest cap_token expires h = absurd (cc)
step_taken false (some false) rest cap_token expires h = absurd (cc)
step_taken false (some true) rest cap_token expires h = (refl, refl, h)

-- The two tests of a challenge that parses.
tests_passed :
    (late miscounted : Bool) (rest : RedeemResult) (cap_token : List ℕ) (expires : ℕ)
    → (if late
        then refused "Captcha challenge expired"
        else if miscounted
        then refused "Invalid captcha solutions"
        else rest)
      ≡ redeemed cap_token expires
    → (late ≡ false) × (miscounted ≡ false) × (rest ≡ redeemed cap_token expires)
tests_passed true miscounted rest cap_token expires h = absurd (cc)
tests_passed false true rest cap_token expires h = absurd (cc)
tests_passed false false rest cap_token expires h = (refl, refl, h)

token_of : RedeemResult → List ℕ
token_of (redeemed cap_token expires) = cap_token
token_of (refused reason) = []
token_of threw = []

redeemed-token : {a b : List ℕ} {e f : ℕ} → redeemed a e ≡ redeemed b f → a ≡ b
unfolding token_of
redeemed-token h = ap token_of h

redeemed-expiry : {a b : List ℕ} {e f : ℕ} → redeemed a e ≡ redeemed b f → e ≡ f
redeemed-expiry h = cc (h)

counted→path : (a b : ℕ) → not (a == b) ≡ false → a ≡ b
counted→path a b h = ground arith

module _ (k : Crypto) where
  check_from-AllSolve :
      (token : List ℕ) (params : CapParams) (i : ℕ) (solutions : List (Option ℕ))
      (done : RedeemResult) (cap_token : List ℕ) (expires : ℕ)
      → check_from k token params i solutions done ≡ redeemed cap_token expires
      → AllSolve k token params i solutions × (done ≡ redeemed cap_token expires)
  unfolding check_from
  check_from-AllSolve token params i [] done cap_token expires h = (tt, h)
  check_from-AllSolve token params i (none ∷ solutions) done cap_token expires h = absurd (cc)
  check_from-AllSolve token params i (some nonce ∷ solutions) done cap_token expires h =
      let sub = sub_challenge token i params in
      let (safe, right, left) =
        step_taken (ltb max_safe_integer nonce) (check_solution k sub.salt sub.target nonce) _
          cap_token expires h in
      let rest = check_from-AllSolve token params (i + 1) solutions done cap_token expires left in
      (((nonce, refl, ltb_false→le max_safe_integer nonce safe, right), rest.0), rest.1)

  -- What a redeemed challenge has shown.
  abbrev pub IsEarned :
      List ℕ → List ℕ → Option (List (Option ℕ)) → ℕ → List ℕ → ℕ → ℕ → CapParams → Type 0
  IsEarned secret token solutions now cap_token expires deadline params =
      (now ≤ deadline)
      × (cap_token ≡ derive_cap_token k secret token)
      × (deadline + cap_token_grace_ms ≡ expires)
      × ((nonces : List (Option ℕ)) × (solutions ≡ some nonces)
          × (length nonces ≡ params.c)
          × AllSolve k token params 1 nonces)

  redeem-IsEarned :
      (secret token : List ℕ) (solutions : Option (List (Option ℕ))) (now deadline : ℕ)
      (params : CapParams) (cap_token : List ℕ) (expires : ℕ)
      → redeem k secret token solutions now (parsed deadline params) ≡ redeemed cap_token expires
      → IsEarned secret token solutions now cap_token expires deadline params
  unfolding redeem
  redeem-IsEarned secret token none now deadline params cap_token expires h = absurd (ground arith)
  redeem-IsEarned secret token (some solutions) now deadline params cap_token expires h =
      let done = redeemed (derive_cap_token k secret token) (deadline + cap_token_grace_ms) in
      let (in_time, counted, taken) =
        tests_passed (ltb deadline now) (not (length solutions == params.c)) _ cap_token expires
          h in
      let (solve, same_) =
        check_from-AllSolve token params 1 solutions done cap_token expires taken in
      (
        ltb_false→le deadline now in_time,
        redeemed-token (sym same_),
        redeemed-expiry same_,
        (solutions, refl, counted→path (length solutions) params.c counted, solve),
      )

-- Where an HMAC is 32 bytes and the shape and the time fit the token, a minted challenge that is
-- redeemed was in time, with as many solutions as its shape has sub-challenges, each a safe
-- integer that solves the one of its place; and the capToken is the one derived from the token and
-- is valid, with the shape that was minted, until the grace after the deadline ends.
pub verify_solutions-IsEarned :
    (k : Crypto) (secret : List ℕ) (params : CapParams) (minted : ℕ) (random : List ℕ)
    (solutions : Option (List (Option ℕ))) (now : ℕ) (cap_token : List ℕ) (expires : ℕ)
    → IsMac k
    → IsShape params
    → length random ≡ 7
    → All IsByte random
    → minted + challenge_ttl_ms < 2 ^ 48
    → verify_solutions k secret
        (some (mint_challenge k secret params minted random).token)
        solutions
        now
      ≡ redeemed cap_token expires
    → IsEarned k secret
        (mint_challenge k secret params minted random).token
        solutions
        now
        cap_token
        expires
        (minted + challenge_ttl_ms)
        params
      × ((later : ℕ)
          → later ≤ expires
          → verify_cap_token k secret cap_token later ≡ valid expires params)
unfolding verify_solutions
verify_solutions-IsEarned k secret params minted random solutions now cap_token expires is_mac shape
      seven bytes soon h =
    let token = (mint_challenge k secret params minted random).token in
    let read =
      parse_token-mint_challenge k secret params minted random is_mac shape seven bytes soon in
    let earned =
      redeem-IsEarned k secret token solutions now (minted + challenge_ttl_ms) params cap_token
        expires
        (subst (λ p. redeem k secret token solutions now p ≡ redeemed cap_token expires) read h) in
    (
      earned,
      λ later in_time.
          ap (λ t. verify_cap_token k secret t later) earned.1
          ∙ verify_cap_token-derived k is_mac secret token (minted + challenge_ttl_ms) params later
              read (omega (arith, earned.2))
          ∙ ap (λ e. valid e params) earned.2,
    )
