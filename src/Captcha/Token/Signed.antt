-- ===== src/Captcha/Token/Signed.antt =====
-- `parseToken` of src/cap.ts reads back what `mintChallenge` wrote, and nothing else.
use dash_faucet_cf.Base.{
  ℕ, ◌+◌, ◌%◌, ◌^◌, ◌≤◌, ◌<◌, ◌≡◌, refl, sym, ◌∙◌, true, ◌&&◌, List, ◌++◌, arith, ◌==◌, length,
  take, drop, all, All, Bool-cases, inl, inr, length-append, length-take, take-append-drop,
}
use dash_faucet_cf.Captcha.{
  CapParams, Crypto, challenge_ttl_ms, is_lower_hex, hex_only, to_hex, from_hex,
  timing_safe_equal_hex, challenge_domain, mac,
}
use dash_faucet_cf.Captcha.Hex.{
  IsByte, length-to_hex, from_hex-to_hex, to_hex-hex_only, to_hex-from_hex, all-append, All-take,
  all-take, take-append, drop-append, timing_safe_equal_hex_lem,
}
use dash_faucet_cf.Captcha.Token.{
  challenge_payload, tag_of, mint_challenge, parsed, big_endian, expiry_of, params_of, parse_token,
}

-- An HMAC of SHA-256 is 32 bytes.
abbrev pub IsMac : Crypto → Type 0
IsMac k =
    (key message : List ℕ) → (length (k.hmac key message) ≡ 32) × All IsByte (k.hmac key message)

-- A payload and its tag, in hex.
abbrev pub signed_token : Crypto → List ℕ → List ℕ → List ℕ
signed_token k secret payload = to_hex payload ++ to_hex (tag_of k secret payload)

abbrev pub IsPayload : List ℕ → Type 0
IsPayload payload = (length payload ≡ 16) × All IsByte payload

module _ (k : Crypto) (is_mac : IsMac k) (secret : List ℕ) where
  length-tag_of : (payload : List ℕ) → length (tag_of k secret payload) ≡ 9
  unfolding mac
  length-tag_of payload = omega (
    arith,
    length-take 9 (mac k secret challenge_domain payload),
    (is_mac (k.encode secret) (challenge_domain ++ payload)).0,
  )

  tag_of-IsByte : (payload : List ℕ) → All IsByte (tag_of k secret payload)
  unfolding mac
  tag_of-IsByte payload =
      All-take IsByte 9 (mac k secret challenge_domain payload)
        (is_mac (k.encode secret) (challenge_domain ++ payload)).1

  pub length-signed_token :
      (payload : List ℕ) → IsPayload payload → length (signed_token k secret payload) ≡ 50
  length-signed_token payload (e, h) = omega (
    arith,
    length-append (to_hex payload) (to_hex (tag_of k secret payload)),
    length-to_hex payload,
    length-to_hex (tag_of k secret payload),
    length-tag_of payload,
  )

  pub signed_token-hex_only :
      (payload : List ℕ)
      → IsPayload payload
      → all is_lower_hex (signed_token k secret payload) ≡ true
  signed_token-hex_only payload (e, h) =
      all-append is_lower_hex (to_hex payload) (to_hex (tag_of k secret payload))
      ∙ rw (to_hex-hex_only payload h)
          (to_hex-hex_only (tag_of k secret payload) (tag_of-IsByte payload))

  pub parse_token-signed_token :
      (payload : List ℕ)
      → IsPayload payload
      → parse_token k secret (signed_token k secret payload)
        ≡ parsed (expiry_of payload) (params_of payload)
  unfolding parse_token
  parse_token-signed_token payload (e, h) =
      let front =
        take-append 32 (to_hex payload) (to_hex (tag_of k secret payload))
          (omega (arith, length-to_hex payload)) in
      let back =
        drop-append 32 (to_hex payload) (to_hex (tag_of k secret payload))
          (omega (arith, length-to_hex payload)) in
      let size = length-signed_token payload (e, h) in
      let digits = signed_token-hex_only payload (e, h) in
      rw size (
        rw digits (
          rw front (
            rw back (
              rw (from_hex-to_hex payload h) (
                rw
                  ((timing_safe_equal_hex_lem (to_hex (tag_of k secret payload))
                      (to_hex (tag_of k secret payload))).1
                    refl)
                  refl)))))

  -- A token that parses is a payload with its tag.
  pub parse_token-parsed :
      (token : List ℕ) (expires : ℕ) (params : CapParams)
      → parse_token k secret token ≡ parsed expires params
      → (payload : List ℕ) × IsPayload payload
        × (token ≡ signed_token k secret payload)
        × (expiry_of payload ≡ expires)
        × (params_of payload ≡ params)
  unfolding parse_token
  parse_token-parsed token expires params e =
      let head = take 32 token in
      let tail = drop 32 token in
      let payload = from_hex head in
      let tag = to_hex (tag_of k secret payload) in
      elim (Bool-cases (length token == 50 && hex_only token)) [
        | inr bad ↦ absurd (ground arith)
        | inl good ↦ elim (Bool-cases (timing_safe_equal_hex tail tag)) [
          | inr forged ↦ absurd (ground arith)
          | inl genuine ↦
              let size : length token ≡ 50 = ground arith in
              let digits : all is_lower_hex token ≡ true = ground arith in
              let read =
                to_hex-from_hex 16 head (omega (arith, length-take 32 token))
                  (all-take is_lower_hex 32 token digits) in
              let tags = (timing_safe_equal_hex_lem tail tag).0 genuine in
              let found : parsed (expiry_of payload) (params_of payload) ≡ parsed expires params =
                ground arith in
              (
                payload,
                (read.1, read.2),
                sym (take-append-drop 32 token) ∙ cc (read.0, tags),
                cc (found),
                cc (found),
              )
        ]
      ]

-- The shapes that a payload has room for.
abbrev pub IsShape : CapParams → Type 0
IsShape params =
    (1 ≤ params.c) × (params.c ≤ 256) × (1 ≤ params.s) × (params.s ≤ 256) × (params.d < 256)

expiry_of-challenge_payload :
    (params : CapParams) (expires : ℕ) (random : List ℕ)
    → expires < 2 ^ 48
    → expiry_of (challenge_payload params expires random) ≡ expires
unfolding big_endian
expiry_of-challenge_payload params expires random h = omega arith

params_of-challenge_payload :
    (params : CapParams) (expires : ℕ) (random : List ℕ)
    → IsShape params
    → params_of (challenge_payload params expires random) ≡ params
params_of-challenge_payload params expires random (c1, c2, s1, s2, d) =
    let c_ : (params.c + 255) % 256 + 1 ≡ params.c = omega arith in
    let s_ : (params.s + 255) % 256 + 1 ≡ params.s = omega arith in
    let d_ : params.d % 256 ≡ params.d = omega arith in λ i. record { c = c_ i; s = s_ i; d = d_ i }

challenge_payload-IsPayload :
    (params : CapParams) (expires : ℕ) (random : List ℕ)
    → length random ≡ 7
    → All IsByte random
    → IsPayload (challenge_payload params expires random)
challenge_payload-IsPayload params expires random e h = (
  omega (arith, e),
  (
    omega arith,
    (
      omega arith,
      (
        omega arith,
        (omega arith, (omega arith, (omega arith, (omega arith, (omega arith, (omega arith, h)))))),
      ),
    ),
  ),
)

-- Where an HMAC is 32 bytes, c and s are from 1 to 256 and d is below 256, the random bytes are
-- seven bytes and the deadline fits 48 bits, the token of a minted challenge parses back to its
-- deadline and its shape.
pub parse_token-mint_challenge :
    (k : Crypto) (secret : List ℕ) (params : CapParams) (now : ℕ) (random : List ℕ)
    → IsMac k
    → IsShape params
    → length random ≡ 7
    → All IsByte random
    → now + challenge_ttl_ms < 2 ^ 48
    → parse_token k secret (mint_challenge k secret params now random).token
      ≡ parsed (now + challenge_ttl_ms) params
unfolding mint_challenge
parse_token-mint_challenge k secret params now random is_mac shape e h soon =
    let payload = challenge_payload params (now + challenge_ttl_ms) random in
    parse_token-signed_token k is_mac secret payload
      (challenge_payload-IsPayload params (now + challenge_ttl_ms) random e h)
    ∙ cc (
      expiry_of-challenge_payload params (now + challenge_ttl_ms) random soon,
      params_of-challenge_payload params (now + challenge_ttl_ms) random shape,
    )
