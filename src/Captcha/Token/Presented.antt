-- ===== src/Captcha/Token/Presented.antt =====
-- `verifyCapToken` of src/cap.ts takes the capTokens that the faucet signed, and no others.
use dash_faucet_cf.Base.{
  ℕ, ◌+◌, ◌≤◌, ◌≡◌, refl, ap, ◌∙◌, ◌↔◌, ◌⊎◌, true, false, ◌&&◌, String, List, ◌++◌, arith, ltb,
  ◌==◌, length, take, all, Bool-cases, inl, inr, length-append,
}
use dash_faucet_cf.Captcha.{
  CapParams, Crypto, cap_token_grace_ms, is_lower_hex, hex_only, to_hex, timing_safe_equal_hex,
  redeem_domain, mac,
}
use dash_faucet_cf.Captcha.Hex.{
  length-to_hex, to_hex-hex_only, all-append, take-append, timing_safe_equal_hex_lem,
}
use dash_faucet_cf.Captcha.Token.{
  TokenParse, parsed, malformed, expiry_of, params_of, parse_token, derive_cap_token, valid,
  check_cap_token, verify_cap_token,
}
use dash_faucet_cf.Captcha.Token.Signed.{
  IsMac, IsPayload, signed_token, length-signed_token, signed_token-hex_only,
  parse_token-signed_token, parse_token-parsed,
}

-- The capToken is the signature of a payload that expires, with its grace, at `expires` and says
-- `params`, and that time has not passed.
abbrev pub IsAuthentic : Crypto → List ℕ → List ℕ → ℕ → ℕ → CapParams → Type 0
IsAuthentic k secret cap_token now expires params =
    (payload : List ℕ) × IsPayload payload
    × (cap_token ≡ derive_cap_token k secret (signed_token k secret payload))
    × (expiry_of payload + cap_token_grace_ms ≡ expires)
    × (params_of payload ≡ params)
    × (now ≤ expires)

TokenParse-cases :
    (p : TokenParse)
    → ((e : ℕ) × (s : CapParams) × (p ≡ parsed e s)) ⊎ ((r : String) × (p ≡ malformed r))
TokenParse-cases (parsed e s) = inl (e, s, refl)
TokenParse-cases (malformed r) = inr (r, refl)

le→ltb_false : (a b : ℕ) → a ≤ b → ltb b a ≡ false
le→ltb_false a b h = ground arith

module _ (k : Crypto) (is_mac : IsMac k) (secret : List ℕ) where
  length-derive_cap_token :
      (token : List ℕ) → length (derive_cap_token k secret token) ≡ length token + 64
  unfolding derive_cap_token mac
  length-derive_cap_token token =
      let tag = k.hmac (k.encode secret) (redeem_domain ++ k.encode token) in
      omega (
        arith,
        length-append token (to_hex tag),
        length-to_hex tag,
        (is_mac (k.encode secret) (redeem_domain ++ k.encode token)).0,
      )

  derive_cap_token-hex_only :
      (token : List ℕ)
      → all is_lower_hex token ≡ true
      → all is_lower_hex (derive_cap_token k secret token) ≡ true
  unfolding derive_cap_token mac
  derive_cap_token-hex_only token h =
      let tag = k.hmac (k.encode secret) (redeem_domain ++ k.encode token) in
      all-append is_lower_hex token (to_hex tag)
      ∙ rw h (to_hex-hex_only tag (is_mac (k.encode secret) (redeem_domain ++ k.encode token)).1)

  take-derive_cap_token :
      (token : List ℕ) → length token ≡ 50 → take 50 (derive_cap_token k secret token) ≡ token
  unfolding derive_cap_token
  take-derive_cap_token token h = take-append 50 token _ h

  -- A capToken that was derived from a token that parses is valid until its grace ends.
  pub verify_cap_token-derived :
      (token : List ℕ) (expires : ℕ) (params : CapParams) (now : ℕ)
      → parse_token k secret token ≡ parsed expires params
      → now ≤ expires + cap_token_grace_ms
      → verify_cap_token k secret (derive_cap_token k secret token) now
        ≡ valid (expires + cap_token_grace_ms) params
  unfolding verify_cap_token check_cap_token
  verify_cap_token-derived token expires params now e soon =
      let (payload, is_payload, spelt, expiry, shape) =
        parse_token-parsed k is_mac secret token expires params e in
      let size : length token ≡ 50 =
        ap length spelt ∙ length-signed_token k is_mac secret payload is_payload in
      let digits : all is_lower_hex token ≡ true =
        ap (all is_lower_hex) spelt ∙ signed_token-hex_only k is_mac secret payload is_payload in
      let long : length (derive_cap_token k secret token) ≡ 114 =
        omega (arith, length-derive_cap_token token) in
      let self =
        (timing_safe_equal_hex_lem (derive_cap_token k secret token)
            (derive_cap_token k secret token)).1
          refl in
      rw long (
        rw (derive_cap_token-hex_only token digits) (
          rw (take-derive_cap_token token size)
            (rw e (rw self (rw (le→ltb_false now (expires + cap_token_grace_ms) soon) refl)))))

  check_cap_token-valid :
      (cap_token token : List ℕ) (now : ℕ) (p : TokenParse) (expires : ℕ) (params : CapParams)
      → check_cap_token k secret cap_token now token p ≡ valid expires params
      → (e : ℕ) × (p ≡ parsed e params)
        × (e + cap_token_grace_ms ≡ expires)
        × (cap_token ≡ derive_cap_token k secret token)
        × (now ≤ expires)
  unfolding check_cap_token
  check_cap_token-valid cap_token token now (malformed reason) expires params h = absurd (cc)
  check_cap_token-valid cap_token token now (parsed e s) expires params h =
      elim (Bool-cases (timing_safe_equal_hex cap_token (derive_cap_token k secret token))) [
        | inr forged ↦ absurd (ground arith)
        | inl genuine ↦ elim (Bool-cases (ltb (e + cap_token_grace_ms) now)) [
          | inl late ↦ absurd (ground arith)
          | inr soon ↦
              let found : valid (e + cap_token_grace_ms) s ≡ valid expires params = ground arith in
              let until : e + cap_token_grace_ms ≡ expires = cc (found) in
              let shape : s ≡ params = cc (found) in
              (
                e,
                ap (parsed e) shape,
                until,
                (timing_safe_equal_hex_lem cap_token (derive_cap_token k secret token)).0 genuine,
                ground arith,
              )
        ]
      ]

  module _ (cap_token : List ℕ) (now expires : ℕ) (params : CapParams) where
    verify_cap_token_sound :
        verify_cap_token k secret cap_token now ≡ valid expires params
        → IsAuthentic k secret cap_token now expires params
    unfolding verify_cap_token
    verify_cap_token_sound h =
        let token = take 50 cap_token in
        elim (Bool-cases (length cap_token == 114 && hex_only cap_token)) [
          | inr bad ↦ absurd (ground arith)
          | inl good ↦
              let read =
                check_cap_token-valid cap_token token now (parse_token k secret token) expires
                  params (ground arith) in
              let (e, parses, until, genuine, soon) = read in
              let (payload, is_payload, spelt, expiry, shape) =
                parse_token-parsed k is_mac secret token e params parses in
              (
                payload,
                is_payload,
                genuine ∙ ap (derive_cap_token k secret) spelt,
                omega (arith, expiry, until),
                shape,
                soon,
              )
        ]

    verify_cap_token_complete :
        IsAuthentic k secret cap_token now expires params
        → verify_cap_token k secret cap_token now ≡ valid expires params
    verify_cap_token_complete (payload, is_payload, spelt, until, shape, soon) =
        ap (λ t. verify_cap_token k secret t now) spelt
        ∙ verify_cap_token-derived (signed_token k secret payload) (expiry_of payload)
            (params_of payload) now (parse_token-signed_token k is_mac secret payload is_payload)
            (omega (arith, until, soon))
        ∙ cc (until, shape)

-- Where an HMAC is 32 bytes, `verifyCapToken` accepts a text with an expiry and a shape exactly if
-- it is the capToken of the signed token of a payload of 16 bytes that says this expiry, less the
-- grace, and this shape, and the expiry has not passed.
pub verify_cap_token-IsAuthentic :
    (k : Crypto) (secret cap_token : List ℕ) (now expires : ℕ) (params : CapParams)
    → IsMac k
    → (verify_cap_token k secret cap_token now ≡ valid expires params)
      ↔ IsAuthentic k secret cap_token now expires params
verify_cap_token-IsAuthentic k secret cap_token now expires params is_mac = (
  verify_cap_token_sound k is_mac secret cap_token now expires params,
  verify_cap_token_complete k is_mac secret cap_token now expires params,
)
