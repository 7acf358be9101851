-- ===== src/Captcha/Token.antt =====
-- `mintChallenge`, `parseToken`, `deriveCapToken` and `verifyCapToken` of src/cap.ts.
pub mod Presented
pub mod Signed
use dash_faucet_cf.Base.{
  ℕ, ◌+◌, ◌-◌, ◌*◌, ◌/◌, ◌%◌, ◌^◌, String, ◌||◌, not, List, [], ◌∷◌, ◌++◌, ltb, ◌==◌, if◌then◌else◌,
  length, take, drop, get_or,
}
use dash_faucet_cf.Captcha.{
  CapParams, Crypto, challenge_ttl_ms, cap_token_grace_ms, payload_bytes, token_mac_bytes,
  token_hex_len, redeem_mac_hex_len, hex_only, to_hex, from_hex, timing_safe_equal_hex,
  challenge_domain, redeem_domain, mac,
}

-- `CapChallenge`
pub record CapChallenge : Type 0 where
  pub challenge : CapParams
  pub token : List ℕ
  pub expires : ℕ

-- The expiry in six bytes, the shape in three, and the random bytes.
abbrev pub challenge_payload : CapParams → ℕ → List ℕ → List ℕ
challenge_payload params expires random =
    expires / 2 ^ 40 % 256
    ∷ expires / 2 ^ 32 % 256
    ∷ expires / 2 ^ 24 % 256
    ∷ expires / 2 ^ 16 % 256
    ∷ expires / 2 ^ 8 % 256
    ∷ expires % 256
    ∷ (params.c + 255) % 256
    ∷ (params.s + 255) % 256
    ∷ params.d % 256
    ∷ random

-- The truncated tag of a payload.
abbrev pub tag_of : Crypto → List ℕ → List ℕ → List ℕ
tag_of k secret payload = take token_mac_bytes (mac k secret challenge_domain payload)

-- `mintChallenge`, with the seven bytes that `getRandomValues` draws.
unfoldable pub mint_challenge : Crypto → List ℕ → CapParams → ℕ → List ℕ → CapChallenge
unfolding mac to_hex
mint_challenge k secret params now random =
    let expires = now + challenge_ttl_ms in
    let payload = challenge_payload params expires random in
    record {
      challenge = params;
      token = to_hex payload ++ to_hex (tag_of k secret payload);
      expires = expires;
    }

-- `TokenParse`
pub data TokenParse : Type 0 where
  parsed : ℕ → CapParams → TokenParse
  malformed : String → TokenParse

-- The loop that puts the big-endian expiry together.
unfoldable pub big_endian : ℕ → List ℕ → ℕ
big_endian value [] = value
big_endian value (b ∷ bytes) = big_endian (value * 256 + b) bytes

abbrev pub expiry_of : List ℕ → ℕ
expiry_of payload = big_endian 0 (take 6 payload)

abbrev pub params_of : List ℕ → CapParams
params_of payload = record {
  c = get_or payload 6 0 + 1;
  s = get_or payload 7 0 + 1;
  d = get_or payload 8 0;
}

unfoldable pub parse_token : Crypto → List ℕ → List ℕ → TokenParse
unfolding mac to_hex from_hex timing_safe_equal_hex big_endian
parse_token k secret token =
    if not (length token == token_hex_len) || not (hex_only token)
    then malformed "Invalid captcha token"
    else let payload_hex = take (payload_bytes * 2) token in
      let tag_hex = drop (payload_bytes * 2) token in
      let payload = from_hex payload_hex in
      let expected = to_hex (tag_of k secret payload) in
      if not (timing_safe_equal_hex tag_hex expected)
      then malformed "Invalid captcha token"
      else parsed (expiry_of payload) (params_of payload)

-- `deriveCapToken`
unfoldable pub derive_cap_token : Crypto → List ℕ → List ℕ → List ℕ
unfolding mac to_hex
derive_cap_token k secret token = token ++ to_hex (mac k secret redeem_domain (k.encode token))

-- `CapTokenCheck`
pub data CapTokenCheck : Type 0 where
  valid : ℕ → CapParams → CapTokenCheck
  invalid : String → CapTokenCheck

-- What `verifyCapToken` does with a token that parses.
unfoldable pub check_cap_token : Crypto → List ℕ → List ℕ → ℕ → List ℕ → TokenParse → CapTokenCheck
unfolding derive_cap_token timing_safe_equal_hex
check_cap_token k secret cap_token now token (malformed reason) = invalid reason
check_cap_token k secret cap_token now token (parsed expires params) =
    if not (timing_safe_equal_hex cap_token (derive_cap_token k secret token))
    then invalid "Invalid captcha token"
    else if ltb (expires + cap_token_grace_ms) now
    then invalid "Captcha token expired"
    else valid (expires + cap_token_grace_ms) params

unfoldable pub verify_cap_token : Crypto → List ℕ → List ℕ → ℕ → CapTokenCheck
unfolding parse_token check_cap_token
verify_cap_token k secret cap_token now =
    let token = take token_hex_len cap_token in
    if not (length cap_token == token_hex_len + redeem_mac_hex_len) || not (hex_only cap_token)
    then invalid "Invalid captcha token"
    else check_cap_token k secret cap_token now token (parse_token k secret token)
