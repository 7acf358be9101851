-- ===== src/Tests/Captchas.antt =====
-- Runs of the captcha, and its theorems there.
use dash_faucet_cf.Base.{
  ℕ, ◌≤◌, ◌<◌, ◌↔◌, all, take, ◌%◌, ◌≡◌, refl, true, Option, some, List, [], ◌∷◌, ◌++◌, arith,
  length, total, All,
}
use dash_faucet_cf.Captcha.{
  CapParams, Crypto, cap_work, to_hex, from_hex, timing_safe_equal_hex, differences, mac,
  is_lower_hex,
}
use dash_faucet_cf.Captcha.Hex.{IsByte}
use dash_faucet_cf.Captcha.Seeded.{
  prng, numeral, seed_state, fnv_round, xorshift, chunk, emit, zeros, sub_challenge,
}
use dash_faucet_cf.Captcha.Seeded.Drawn.{prng-IsHex}
use dash_faucet_cf.Captcha.Token.{
  mint_challenge, parse_token, parsed, derive_cap_token, verify_cap_token, valid, invalid,
  check_cap_token, big_endian,
}
use dash_faucet_cf.Captcha.Token.Signed.{IsMac, IsShape, parse_token-mint_challenge}
use dash_faucet_cf.Captcha.Token.Presented.{IsAuthentic, verify_cap_token-IsAuthentic}
use dash_faucet_cf.Captcha.Solving.{
  verify_solutions, redeemed, refused, redeem, check_from, check_solution, digest_has_prefix,
}
use dash_faucet_cf.Captcha.Solving.Earned.{IsEarned, verify_solutions-IsEarned}

-- A digest of 32 equal bytes, which sum up the message.
abbrev pub toy_digest : List ℕ → List ℕ
toy_digest message =
    let b = total (λ x. x) message % 256 in
    b ∷ b ∷ b ∷ b ∷ b ∷ b ∷ b ∷ b ∷ b ∷ b ∷ b ∷ b ∷ b ∷ b ∷ b ∷ b ∷ b ∷ b ∷ b ∷ b ∷ b ∷ b ∷ b ∷ b
    ∷ b ∷ b ∷ b ∷ b ∷ b ∷ b ∷ b ∷ b ∷ []

abbrev pub toy_crypto : Crypto
toy_crypto = record {
  sha256 = toy_digest;
  hmac = λ key message. toy_digest (key ++ message);
  encode = λ text. text;
}

byte_of : (n : ℕ) → n % 256 < 256
byte_of n = omega arith

pub toy_crypto-IsMac : IsMac toy_crypto
toy_crypto-IsMac key message =
    let q = byte_of (total (λ x. x) (key ++ message)) in
    (
      refl,
      (
        q,
        (
          q,
          (
            q,
            (
              q,
              (
                q,
                (
                  q,
                  (
                    q,
                    (
                      q,
                      (
                        q,
                        (
                          q,
                          (
                            q,
                            (
                              q,
                              (
                                q,
                                (
                                  q,
                                  (
                                    q,
                                    (
                                      q,
                                      (
                                        q,
                                        (
                                          q,
                                          (
                                            q,
                                            (
                                              q,
                                              (
                                                q,
                                                (
                                                  q,
                                                  (
                                                    q,
                                                    (q, (q, (q, (q, (q, (q, (q, (q, (q, tt))))))))),
                                                  ),
                                                ),
                                              ),
                                            ),
                                          ),
                                        ),
                                      ),
                                    ),
                                  ),
                                ),
                              ),
                            ),
                          ),
                        ),
                      ),
                    ),
                  ),
                ),
              ),
            ),
          ),
        ),
      ),
    )

abbrev toy_secret : List ℕ
toy_secret = b's' ∷ b'3' ∷ []

abbrev pub shape : CapParams
shape = record { c = 2; s = 8; d = 1 }

abbrev random_bytes : List ℕ
random_bytes = 1 ∷ 2 ∷ 3 ∷ 4 ∷ 5 ∷ 6 ∷ 255 ∷ []

abbrev minted_token : List ℕ
minted_token = (mint_challenge toy_crypto toy_secret shape 1_700_000_000_000 random_bytes).token

-- As the source's own code draws it: "a240feb00f42" from "abc1".
prng_runs :
    prng (b'a' ∷ b'b' ∷ b'c' ∷ b'1' ∷ []) 12
    ≡ b'a' ∷ b'2' ∷ b'4' ∷ b'0' ∷ b'f' ∷ b'e' ∷ b'b' ∷ b'0' ∷ b'0' ∷ b'f' ∷ b'4' ∷ b'2' ∷ []
unfolding prng numeral seed_state fnv_round xorshift chunk emit zeros
prng_runs = refl

work_runs : cap_work shape ≡ 32
unfolding cap_work
work_runs = refl

shape-IsShape : IsShape shape
shape-IsShape = (omega arith, omega arith, omega arith, omega arith, omega arith)

random_bytes-IsByte : All IsByte random_bytes
random_bytes-IsByte = (
  omega arith,
  (omega arith, (omega arith, (omega arith, (omega arith, (omega arith, (omega arith, tt)))))),
)

parse_token-mint_challenge_example :
    parse_token toy_crypto toy_secret minted_token ≡ parsed 1_700_000_600_000 shape
parse_token-mint_challenge_example =
    parse_token-mint_challenge toy_crypto toy_secret shape 1_700_000_000_000 random_bytes
      toy_crypto-IsMac shape-IsShape refl random_bytes-IsByte (omega arith)

abbrev earned_token : List ℕ
earned_token = derive_cap_token toy_crypto toy_secret minted_token

abbrev solutions : Option (List (Option ℕ))
solutions = some (some 10000 ∷ some 169 ∷ [])

redeemed_run :
    verify_solutions toy_crypto toy_secret (some minted_token) solutions 1_700_000_600_000
    ≡ redeemed earned_token 1_700_001_200_000
unfolding verify_solutions redeem check_from check_solution digest_has_prefix sub_challenge prng
    numeral seed_state fnv_round xorshift chunk emit zeros mint_challenge parse_token to_hex
    from_hex mac timing_safe_equal_hex differences big_endian derive_cap_token
redeemed_run = refl

verify_solutions-IsEarned_example :
    IsEarned toy_crypto toy_secret minted_token solutions 1_700_000_600_000 earned_token
      1_700_001_200_000 1_700_000_600_000 shape
    × ((later : ℕ)
        → later ≤ 1_700_001_200_000
        → verify_cap_token toy_crypto toy_secret earned_token later ≡ valid 1_700_001_200_000 shape)
verify_solutions-IsEarned_example =
    verify_solutions-IsEarned toy_crypto toy_secret shape 1_700_000_000_000 random_bytes solutions
      1_700_000_600_000 earned_token 1_700_001_200_000 toy_crypto-IsMac shape-IsShape refl
      random_bytes-IsByte (omega arith) redeemed_run

verify_cap_token-IsAuthentic_example :
    (verify_cap_token toy_crypto toy_secret earned_token 1_700_000_700_000
      ≡ valid 1_700_001_200_000 shape)
    ↔ IsAuthentic toy_crypto toy_secret earned_token 1_700_000_700_000 1_700_001_200_000 shape
verify_cap_token-IsAuthentic_example =
    verify_cap_token-IsAuthentic toy_crypto toy_secret earned_token 1_700_000_700_000
      1_700_001_200_000 shape toy_crypto-IsMac

prng-IsHex_example :
    (length (prng minted_token 20) ≡ 20) × (all is_lower_hex (prng minted_token 20) ≡ true)
prng-IsHex_example = prng-IsHex minted_token 20

-- A capToken is refused where its last digit was changed, and a challenge after its time.
forged_run :
    verify_cap_token toy_crypto toy_secret (take 113 earned_token ++ b'0' ∷ []) 1_700_000_700_000
    ≡ invalid "Invalid captcha token"
unfolding verify_cap_token check_cap_token parse_token mint_challenge derive_cap_token to_hex
    from_hex mac timing_safe_equal_hex differences big_endian
forged_run = refl

late_run :
    verify_solutions toy_crypto toy_secret (some minted_token) solutions 1_700_000_600_001
    ≡ refused "Captcha challenge expired"
unfolding verify_solutions redeem parse_token mint_challenge to_hex from_hex mac
    timing_safe_equal_hex differences big_endian
late_run = refl
