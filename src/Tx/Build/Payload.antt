-- ===== src/Tx/Build/Payload.antt =====
-- `assetLockPayload` of src/tx.ts, over the code points of its hex strings.
use native.Mathlib.Nat.{pow-suc}
use dash_faucet_cf.Base.{
  ℕ, zero, suc, ◌+◌, ◌-◌, ◌*◌, ◌/◌, ◌%◌, ◌^◌, ◌<◌, ◌≡◌, refl, Bool, true, ◌&&◌, ◌||◌, not, List, [],
  ◌∷◌, ◌++◌, map, arith, ltb, leb, ◌==◌, if◌then◌else◌, length, all, drop, Bool-cases, inl, inr,
  length-append,
}
use dash_faucet_cf.Tx.{Result, ok, refused, ◌>>◌, throw_if}

abbrev pub hex_digit : ℕ → ℕ
hex_digit d = if ltb d 10 then b'0' + d else b'a' + (d - 10)

-- `byte.toString(16).padStart(2, "0")`
abbrev pub byte_hex : ℕ → List ℕ
byte_hex b = hex_digit (b / 16) ∷ hex_digit (b % 16) ∷ []

-- The bytes of a little-endian integer, in hex.
unfoldable pub le_hex : ℕ → ℕ → List ℕ
le_hex zero value = []
le_hex (suc n) value = byte_hex (value % 256) ++ le_hex n (value / 256)

-- `uint64LeHex`: the low 64 bits
abbrev pub uint64_le_hex : ℕ → List ℕ
uint64_le_hex value = le_hex 8 value

abbrev pub is_hex_digit : ℕ → Bool
is_hex_digit c =
    (leb b'0' c && leb c b'9') || (leb b'a' c && leb c b'f') || (leb b'A' c && leb c b'F')

-- `toLowerCase` on hex digits
abbrev pub to_lower : ℕ → ℕ
to_lower c = if leb b'A' c && leb c b'Z' then c + 32 else c

-- `/^[0-9a-f]{40}$/i`
unfoldable pub is_pub_key_hash : List ℕ → Bool
is_pub_key_hash s = length s == 40 && all is_hex_digit s

-- "76a914", "88ac", "0101" and "19"
abbrev script_head : List ℕ
script_head = b'7' ∷ b'6' ∷ b'a' ∷ b'9' ∷ b'1' ∷ b'4' ∷ []

abbrev script_tail : List ℕ
script_tail = b'8' ∷ b'8' ∷ b'a' ∷ b'c' ∷ []

abbrev payload_head : List ℕ
payload_head = b'0' ∷ b'1' ∷ b'0' ∷ b'1' ∷ []

abbrev script_length : List ℕ
script_length = b'1' ∷ b'9' ∷ []

-- payload version, output count, value, script length, script
abbrev pub payload_of : List ℕ → ℕ → List ℕ
payload_of public_key_hash satoshis =
    payload_head
    ++ (uint64_le_hex satoshis
        ++ (script_length ++ (script_head ++ (map to_lower public_key_hash ++ script_tail))))

unfoldable pub asset_lock_payload : List ℕ → ℕ → Result (List ℕ)
asset_lock_payload public_key_hash satoshis = do
  throw_if (not (is_pub_key_hash public_key_hash)) refused
  ok (payload_of public_key_hash satoshis)

-- Reading a payload back.
abbrev pub hex_value : ℕ → ℕ
hex_value c = if leb c b'9' then c - b'0' else c + 10 - b'a'

unfoldable pub read_le : ℕ → List ℕ → ℕ
read_le zero s = 0
read_le (suc n) [] = 0
read_le (suc n) (h ∷ []) = 0
read_le (suc n) (h ∷ l ∷ s) = 16 * hex_value h + hex_value l + 256 * read_le n s

pub hex_value-hex_digit : (d : ℕ) → d < 16 → hex_value (hex_digit d) ≡ d
hex_value-hex_digit d h = ground arith

lt_quotient : (n value : ℕ) → value < 256 ^ suc n → value / 256 < 256 ^ n
lt_quotient n value h = omega (arith, pow-suc 256 n)

read_le-le_hex :
    (n value : ℕ) (s : List ℕ) → value < 256 ^ n → read_le n (le_hex n value ++ s) ≡ value
unfolding read_le le_hex
read_le-le_hex zero value s h = omega arith
read_le-le_hex (suc n) value s h = omega (
  arith,
  hex_value-hex_digit (value % 256 / 16) (omega arith),
  hex_value-hex_digit (value % 256 % 16) (omega arith),
  read_le-le_hex n (value / 256) s (lt_quotient n value h),
)

length-le_hex : (n value : ℕ) → length (le_hex n value) ≡ 2 * n
unfolding le_hex
length-le_hex zero value = refl
length-le_hex (suc n) value = omega (arith, length-le_hex n (value / 256))

length-map-to_lower : (s : List ℕ) → length (map to_lower s) ≡ length s
length-map-to_lower [] = refl
length-map-to_lower (c ∷ s) = omega (arith, length-map-to_lower s)

length_of_hash : (hash : List ℕ) → is_pub_key_hash hash ≡ true → length hash ≡ 40
unfolding is_pub_key_hash
length_of_hash hash h = ground arith

length-payload_of :
    (hash : List ℕ) (satoshis : ℕ) → length hash ≡ 40 → length (payload_of hash satoshis) ≡ 72
length-payload_of hash satoshis h =
    let script = map to_lower hash ++ script_tail in
    omega (
      arith,
      length-append (uint64_le_hex satoshis) (script_length ++ (script_head ++ script)),
      length-append (map to_lower hash) script_tail,
      length-map-to_lower hash,
      length-le_hex 8 satoshis,
    )

-- A payload has 72 hex digits (36 bytes), and its amount field reads back as the satoshis, if
-- these fit 64 bits.
pub asset_lock_payload_lem :
    (hash : List ℕ) (satoshis : ℕ) (payload : List ℕ)
    → asset_lock_payload hash satoshis ≡ ok payload
    → satoshis < 2 ^ 64
    → (length payload ≡ 72) × (read_le 8 (drop 4 payload) ≡ satoshis)
unfolding asset_lock_payload
asset_lock_payload_lem hash satoshis payload e h = elim (Bool-cases (is_pub_key_hash hash)) [
  | inr bad ↦ absurd (ground arith)
  | inl good ↦
      let same_p : payload_of hash satoshis ≡ payload = ground arith in
      rw (← same_p)
        (length-payload_of hash satoshis (length_of_hash hash good), read_le-le_hex 8 satoshis _ h)
]
