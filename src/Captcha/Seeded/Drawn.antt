-- ===== src/Captcha/Seeded/Drawn.antt =====
-- The loop of `prng` of src/cap.ts ends with what it was asked for.
use dash_faucet_cf.Base.{
  ℕ, zero, suc, ◌+◌, ◌-◌, ◌*◌, ◌/◌, ◌%◌, ◌^◌, ◌≤◌, ◌<◌, ◌≡◌, refl, ◌∙◌, true, List, [], ◌∷◌, ◌++◌,
  arith, ltb, length, all, Bool-cases, inl, inr, length-append, length-take,
}
use native.Mathlib.Nat.{pow-suc}
use dash_faucet_cf.Tx.Build.Payload.{hex_digit}
use dash_faucet_cf.Captcha.{is_lower_hex}
use dash_faucet_cf.Captcha.Hex.{hex_digit-IsHex, all-append, all-take}
use dash_faucet_cf.Captcha.Seeded.{numeral, decimal, zeros, seed_state, xorshift, chunk, emit, prng}

length-zeros : (n : ℕ) → length (zeros n) ≡ n
unfolding zeros
length-zeros zero = refl
length-zeros (suc n) = omega (arith, length-zeros n)

zeros-IsHex : (n : ℕ) → all is_lower_hex (zeros n) ≡ true
unfolding zeros
zeros-IsHex zero = refl
zeros-IsHex (suc n) = zeros-IsHex n

length-numeral-le : (base digits n : ℕ) → length (numeral base digits n) ≤ digits
unfolding numeral
length-numeral-le base zero n = omega arith
length-numeral-le base (suc digits) n = ground (
  arith,
  length-numeral-le base digits (n / base),
  length-append (numeral base digits (n / base)) (hex_digit (n % base) ∷ []),
)

hex_numeral-IsHex : (digits n : ℕ) → all is_lower_hex (numeral 16 digits n) ≡ true
unfolding numeral
hex_numeral-IsHex zero n = refl
hex_numeral-IsHex (suc digits) n = elim (Bool-cases (ltb n 16)) [
  | inl one ↦ ground (arith, hex_digit-IsHex n)
  | inr more ↦ ground (
    arith,
    hex_digit-IsHex (n % 16),
    hex_numeral-IsHex digits (n / 16),
    all-append is_lower_hex (numeral 16 digits (n / 16)) (hex_digit (n % 16) ∷ []),
  )
]

-- A round appends eight hex digits.
length-chunk : (state : ℕ) → length (chunk state) ≡ 8
unfolding chunk
length-chunk state =
    let text = numeral 16 8 state in
    omega (
      arith,
      length-append (zeros (8 - length text)) text,
      length-zeros (8 - length text),
      length-numeral-le 16 8 state,
    )

chunk-IsHex : (state : ℕ) → all is_lower_hex (chunk state) ≡ true
unfolding chunk
chunk-IsHex state =
    let text = numeral 16 8 state in
    all-append is_lower_hex (zeros (8 - length text)) text
    ∙ rw (zeros-IsHex (8 - length text)) (hex_numeral-IsHex 8 state)

emit-lem :
    (fuel size state : ℕ) (out : List ℕ)
    → size ≤ fuel + length out
    → all is_lower_hex out ≡ true
    → (size ≤ length (emit fuel size state out))
      × (all is_lower_hex (emit fuel size state out) ≡ true)
unfolding emit
emit-lem zero size state out enough h = (omega arith, h)
emit-lem (suc fuel) size state out enough h =
    let next = xorshift state in
    let longer = length-append out (chunk next) in
    let eight = length-chunk next in
    let digits : all is_lower_hex (out ++ chunk next) ≡ true =
      all-append is_lower_hex out (chunk next) ∙ rw h (chunk-IsHex next) in
    let rest = emit-lem fuel size next (out ++ chunk next) (omega (arith, longer, eight)) digits in
    elim (Bool-cases (ltb (length out) size)) [
      | inl short ↦ rw (short, emit) rest
      | inr full ↦ rw (full, emit) (ground arith, h)
    ]

-- `prng` returns as many characters as were asked for, all of them lowercase hex digits: its loop
-- ends by its test within that many rounds.
pub prng-IsHex :
    (seed : List ℕ) (size : ℕ)
    → (length (prng seed size) ≡ size) × (all is_lower_hex (prng seed size) ≡ true)
unfolding prng
prng-IsHex seed size =
    let drawn = emit size size (seed_state 0x811c9dc5 seed) [] in
    let loop = emit-lem size size (seed_state 0x811c9dc5 seed) [] (omega arith) refl in
    (omega (arith, length-take size drawn, loop.0), all-take is_lower_hex size drawn loop.1)

-- Reading a decimal back.
unfoldable read_decimal : ℕ → List ℕ → ℕ
read_decimal value [] = value
read_decimal value (c ∷ s) = read_decimal (value * 10 + (c - b'0')) s

read_decimal-append :
    (value c : ℕ) (s : List ℕ)
    → read_decimal value (s ++ c ∷ []) ≡ read_decimal value s * 10 + (c - b'0')
unfolding read_decimal
read_decimal-append value c [] = refl
read_decimal-append value c (x ∷ s) = read_decimal-append (value * 10 + (x - b'0')) c s

decimal_digit : (d : ℕ) → d < 10 → hex_digit d - b'0' ≡ d
decimal_digit d h = ground arith

-- A number below ten to the number of digits is written out in full.
read_decimal-numeral :
    (digits n : ℕ) → n < 10 ^ suc digits → read_decimal 0 (numeral 10 (suc digits) n) ≡ n
unfolding numeral read_decimal
read_decimal-numeral zero n h = ground (arith, decimal_digit n)
read_decimal-numeral (suc digits) n h =
    let rest = read_decimal-numeral digits (n / 10) (omega (arith, pow-suc 10 (suc digits))) in
    let last = decimal_digit (n % 10) (omega arith) in
    let whole = read_decimal-append 0 (hex_digit (n % 10)) (numeral 10 (suc digits) (n / 10)) in
    elim (Bool-cases (ltb n 10)) [
      | inl one ↦ rw one (omega arith)
      | inr more ↦ rw more (omega (arith, rest, last, whole))
    ]

-- Sixteen digits are enough for `String` of a safe integer.
decimal_is_whole : (n : ℕ) → n ≤ 9_007_199_254_740_991 → read_decimal 0 (decimal n) ≡ n
decimal_is_whole n h = read_decimal-numeral 15 n (omega arith)
