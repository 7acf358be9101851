-- ===== src/Captcha.antt =====
-- The proof-of-work captcha of src/cap.ts: its hex, its tokens and their authentication. A text is
-- the list of its UTF-16 code units.
pub mod Hex
pub mod Seeded
pub mod Token
pub mod Solving
use dash_faucet_cf.Base.{
  ℕ, ◌+◌, ◌*◌, ◌/◌, ◌^◌, Bool, ◌&&◌, ◌||◌, List, [], ◌∷◌, ◌++◌, leb, ◌==◌, length, all,
}
use Prim.Native.Nat.{bit_or, bit_xor}
use dash_faucet_cf.Tx.Build.Payload.{byte_hex, hex_value}

-- `CapParams`: sub-challenges, salt length and target length
pub record CapParams : Type 0 where
  pub c : ℕ
  pub s : ℕ
  pub d : ℕ

-- `capWork`
unfoldable pub cap_work : CapParams → ℕ
cap_work params = params.c * 16 ^ params.d

-- `sha256`, `hmac(sha256, key, message)` and `TextEncoder`, which are not the repository's.
pub record Crypto : Type 0 where
  pub sha256 : List ℕ → List ℕ
  pub hmac : List ℕ → List ℕ → List ℕ
  pub encode : List ℕ → List ℕ

abbrev pub challenge_ttl_ms : ℕ
challenge_ttl_ms = 600_000

abbrev pub cap_token_grace_ms : ℕ
cap_token_grace_ms = 600_000

abbrev pub payload_bytes : ℕ
payload_bytes = 16

abbrev pub token_mac_bytes : ℕ
token_mac_bytes = 9

abbrev pub token_hex_len : ℕ
token_hex_len = 50

abbrev pub redeem_mac_hex_len : ℕ
redeem_mac_hex_len = 64

abbrev pub is_lower_hex : ℕ → Bool
is_lower_hex c = (leb b'0' c && leb c b'9') || (leb b'a' c && leb c b'f')

-- `HEX_ONLY`, of a text that is not empty
abbrev pub hex_only : List ℕ → Bool
hex_only s = leb 1 (length s) && all is_lower_hex s

unfoldable pub to_hex : List ℕ → List ℕ
to_hex [] = []
to_hex (b ∷ bytes) = byte_hex b ++ to_hex bytes

-- `fromHex`, which the code calls on hex digits only
unfoldable pub from_hex : List ℕ → List ℕ
from_hex [] = []
from_hex (h ∷ []) = []
from_hex (h ∷ l ∷ s) = (16 * hex_value h + hex_value l) ∷ from_hex s

-- The loop of `timingSafeEqualHex`: `diff |= a.charCodeAt(i) ^ b.charCodeAt(i)`
unfoldable pub differences : List ℕ → List ℕ → ℕ → ℕ
differences (a ∷ as_) (b ∷ bs) diff = differences as_ bs (bit_or diff (bit_xor a b))
differences as_ bs diff = diff

unfoldable pub timing_safe_equal_hex : List ℕ → List ℕ → Bool
unfolding differences
timing_safe_equal_hex a b = length a == length b && differences a b 0 == 0

-- "cap-challenge:" and "cap-redeem:"
abbrev pub challenge_domain : List ℕ
challenge_domain =
    b'c' ∷ b'a' ∷ b'p' ∷ b'-' ∷ b'c' ∷ b'h' ∷ b'a' ∷ b'l' ∷ b'l' ∷ b'e' ∷ b'n' ∷ b'g' ∷ b'e' ∷ b':'
    ∷ []

abbrev pub redeem_domain : List ℕ
redeem_domain = b'c' ∷ b'a' ∷ b'p' ∷ b'-' ∷ b'r' ∷ b'e' ∷ b'd' ∷ b'e' ∷ b'e' ∷ b'm' ∷ b':' ∷ []

unfoldable pub mac : Crypto → List ℕ → List ℕ → List ℕ → List ℕ
mac k secret domain message = k.hmac (k.encode secret) (domain ++ message)
