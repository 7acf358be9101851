-- ===== src/Captcha/Solving.antt =====
-- `digestHasPrefix`, `checkSolution` and `verifySolutions` of src/cap.ts.
pub mod Earned
use dash_faucet_cf.Base.{
  ℕ, ◌+◌, ◌/◌, String, Bool, true, false, ◌&&◌, not, Option, none, some, List, [], ◌∷◌, ◌++◌, ltb,
  ◌==◌, if◌then◌else◌, length, take,
}
use dash_faucet_cf.Captcha.{CapParams, Crypto, cap_token_grace_ms, to_hex}
use dash_faucet_cf.Captcha.Seeded.{decimal, sub_challenge, numeral}
use dash_faucet_cf.Captcha.Token.{TokenParse, parsed, malformed, parse_token, derive_cap_token}

-- `s.startsWith(target)`
abbrev pub starts_with : List ℕ → List ℕ → Bool
starts_with [] s = true
starts_with (t ∷ ts) [] = false
starts_with (t ∷ ts) (c ∷ s) = t == c && starts_with ts s

-- `digestHasPrefix`; it throws where the digest is too short for the target.
unfoldable pub digest_has_prefix : List ℕ → List ℕ → Option Bool
unfolding to_hex
digest_has_prefix digest target =
    let bytes = (length target + 1) / 2 in
    if ltb (length digest) bytes
    then none
    else some (starts_with target (to_hex (take bytes digest)))

unfoldable pub check_solution : Crypto → List ℕ → List ℕ → ℕ → Option Bool
unfolding digest_has_prefix numeral
check_solution k salt target nonce =
    digest_has_prefix (k.sha256 (k.encode (salt ++ decimal nonce))) target

-- `RedeemResult`, or the exception
pub data RedeemResult : Type 0 where
  redeemed : List ℕ → ℕ → RedeemResult
  refused : String → RedeemResult
  threw : RedeemResult

-- `Number.MAX_SAFE_INTEGER`
abbrev pub max_safe_integer : ℕ
max_safe_integer = 9_007_199_254_740_991

-- The loop over the solutions, from the i-th on; `none` is a value that is no natural number.
unfoldable pub check_from :
    Crypto → List ℕ → CapParams → ℕ → List (Option ℕ) → RedeemResult → RedeemResult
unfolding sub_challenge check_solution
check_from k token params i [] done = done
check_from k token params i (none ∷ solutions) done = refused "Invalid captcha solutions"
check_from k token params i (some nonce ∷ solutions) done =
    let rest = check_from k token params (i + 1) solutions done in
    let sub = sub_challenge token i params in
    if ltb max_safe_integer nonce
    then refused "Invalid captcha solutions"
    else elim (check_solution k sub.salt sub.target nonce) [
      | none ↦ threw
      | some false ↦ refused "Captcha solution rejected"
      | some true ↦ rest
    ]

-- What `verifySolutions` does with a token that parses.
unfoldable pub redeem :
    Crypto → List ℕ → List ℕ → Option (List (Option ℕ)) → ℕ → TokenParse → RedeemResult
unfolding check_from derive_cap_token
redeem k secret token solutions now (malformed reason) = refused reason
redeem k secret token none now (parsed expires params) =
    if ltb expires now
    then refused "Captcha challenge expired"
    else refused "Invalid captcha solutions"
redeem k secret token (some solutions) now (parsed expires params) =
    if ltb expires now
    then refused "Captcha challenge expired"
    else if not (length solutions == params.c)
    then refused "Invalid captcha solutions"
    else check_from k token params 1 solutions
        (redeemed (derive_cap_token k secret token) (expires + cap_token_grace_ms))

-- `verifySolutions`, where `none` is a token that is no string, or solutions that are no array.
unfoldable pub verify_solutions :
    Crypto → List ℕ → Option (List ℕ) → Option (List (Option ℕ)) → ℕ → RedeemResult
unfolding redeem parse_token
verify_solutions k secret none solutions now = refused "Invalid captcha token"
verify_solutions k secret (some token) solutions now =
    redeem k secret token solutions now (parse_token k secret token)
