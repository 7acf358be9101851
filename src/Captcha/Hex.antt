-- ===== src/Captcha/Hex.antt =====
-- Lemmas on the hex of src/cap.ts and on its comparison of hex strings.
use Prim.Native.Nat.{bit_or, bit_xor, bit_or-bitwise, bit_xor-bitwise, digits, differ}
use dash_faucet_cf.Base.{
  ℕ, zero, suc, ◌+◌, ◌*◌, ◌/◌, ◌%◌, ◌≤◌, ◌<◌, max, ◌≡◌, refl, sym, ap, ◌∙◌, ◌↔◌, Bool, true, ◌&&◌,
  List, [], ◌∷◌, ◌++◌, arith, length, take, drop, all, All,
}
use dash_faucet_cf.Tx.Build.Payload.{hex_digit, hex_value, hex_value-hex_digit}
use dash_faucet_cf.Captcha.{is_lower_hex, to_hex, from_hex, differences, timing_safe_equal_hex}

abbrev xor_digits : ℕ → ℕ → ℕ → ℕ
xor_digits n a b = digits (λ b. b) differ n a b

abbrev or_digits : ℕ → ℕ → ℕ → ℕ
or_digits n a b = digits (λ b. b) max n a b

differ_zero : (a b : ℕ) → differ a b ≡ 0 → a ≡ b
differ_zero zero b h = omega arith
differ_zero (suc a) zero h = omega arith
differ_zero (suc a) (suc b) h = omega (arith, differ_zero a b h)

differ_self : (a : ℕ) → differ a a ≡ 0
differ_self zero = refl
differ_self (suc a) = differ_self a

xor_digits_zero : (n a b : ℕ) → a ≤ n → xor_digits n a b ≡ 0 → a ≡ b
xor_digits_zero zero zero b le h = omega arith
xor_digits_zero zero (suc a) b le h = absurd (omega arith)
xor_digits_zero (suc n) zero b le h = omega arith
xor_digits_zero (suc n) (suc a) b le h = omega (
  arith,
  xor_digits_zero n (suc a / 2) (b / 2) (omega arith) (omega arith),
  differ_zero (suc a % 2) (b % 2) (omega arith),
)

xor_digits_self : (n a : ℕ) → a ≤ n → xor_digits n a a ≡ 0
xor_digits_self zero zero le = refl
xor_digits_self zero (suc a) le = absurd (omega arith)
xor_digits_self (suc n) zero le = refl
xor_digits_self (suc n) (suc a) le =
    omega (arith, xor_digits_self n (suc a / 2) (omega arith), differ_self (suc a % 2))

or_digits_zero : (n a b : ℕ) → a ≤ n → or_digits n a b ≡ 0 → (a ≡ 0) × (b ≡ 0)
or_digits_zero zero zero b le h = (refl, h)
or_digits_zero zero (suc a) b le h = absurd (omega arith)
or_digits_zero (suc n) zero b le h = (refl, h)
or_digits_zero (suc n) (suc a) b le h =
    let halves = or_digits_zero n (suc a / 2) (b / 2) (omega arith) (omega arith) in
    (omega (arith, halves), omega (arith, halves))

xor_zero : (a b : ℕ) → bit_xor a b ≡ 0 → a ≡ b
xor_zero a b h = xor_digits_zero a a b (omega arith) (sym (bit_xor-bitwise a b) ∙ h)

xor_self : (a : ℕ) → bit_xor a a ≡ 0
xor_self a = bit_xor-bitwise a a ∙ xor_digits_self a a (omega arith)

or_zero : (a b : ℕ) → bit_or a b ≡ 0 → (a ≡ 0) × (b ≡ 0)
or_zero a b h = or_digits_zero a a b (omega arith) (sym (bit_or-bitwise a b) ∙ h)

differences_zero :
    (a b : List ℕ) (diff : ℕ)
    → length a ≡ length b
    → differences a b diff ≡ 0
    → (a ≡ b) × (diff ≡ 0)
unfolding differences
differences_zero [] [] diff e h = (refl, h)
differences_zero [] (y ∷ b) diff e h = absurd (omega arith)
differences_zero (x ∷ a) [] diff e h = absurd (omega arith)
differences_zero (x ∷ a) (y ∷ b) diff e h =
    let rest = differences_zero a b (bit_or diff (bit_xor x y)) (omega arith) h in
    let parts = or_zero diff (bit_xor x y) rest.1 in (cc (xor_zero x y parts.1, rest.0), parts.0)

differences_self : (a : List ℕ) → differences a a 0 ≡ 0
unfolding differences
differences_self [] = refl
differences_self (x ∷ a) =
    ap (λ d. differences a a d) (bit_or-bitwise 0 (bit_xor x x) ∙ xor_self x) ∙ differences_self a

-- The comparison that looks at every code unit is equality of the texts.
pub timing_safe_equal_hex_lem : (a b : List ℕ) → (timing_safe_equal_hex a b ≡ true) ↔ (a ≡ b)
unfolding timing_safe_equal_hex
timing_safe_equal_hex_lem a b = (
  λ h. (differences_zero a b 0 (ground arith) (ground arith)).0,
  λ e. rw (← e) (ground (arith, differences_self a)),
)

-- Bytes are below 256.
abbrev pub IsByte : ℕ → Type 0
IsByte b = b < 256

pub length-to_hex : (bytes : List ℕ) → length (to_hex bytes) ≡ 2 * length bytes
unfolding to_hex
length-to_hex [] = refl
length-to_hex (b ∷ bytes) = omega (arith, length-to_hex bytes)

pub from_hex-to_hex : (bytes : List ℕ) → All IsByte bytes → from_hex (to_hex bytes) ≡ bytes
unfolding from_hex to_hex
from_hex-to_hex [] h = refl
from_hex-to_hex (b ∷ bytes) (p, h) =
    let high = hex_value-hex_digit (b / 16) (omega arith) in
    let low = hex_value-hex_digit (b % 16) (omega arith) in
    let byte : 16 * hex_value (hex_digit (b / 16)) + hex_value (hex_digit (b % 16)) ≡ b =
      omega (arith, high, low) in
    cc (byte, from_hex-to_hex bytes h)

pub hex_digit-IsHex : (d : ℕ) → d < 16 → is_lower_hex (hex_digit d) ≡ true
hex_digit-IsHex d h = ground arith

pub to_hex-hex_only : (bytes : List ℕ) → All IsByte bytes → all is_lower_hex (to_hex bytes) ≡ true
unfolding to_hex
to_hex-hex_only [] h = refl
to_hex-hex_only (b ∷ bytes) (p, h) =
    rw (hex_digit-IsHex (b / 16) (omega arith))
      (rw (hex_digit-IsHex (b % 16) (omega arith)) (to_hex-hex_only bytes h))

hex_digit-hex_value : (c : ℕ) → is_lower_hex c ≡ true → hex_digit (hex_value c) ≡ c
hex_digit-hex_value c h = ground arith

hex_value-lt : (c : ℕ) → is_lower_hex c ≡ true → hex_value c < 16
hex_value-lt c h = ground arith

pub to_hex-from_hex :
    (n : ℕ) (s : List ℕ)
    → length s ≡ 2 * n
    → all is_lower_hex s ≡ true
    → (to_hex (from_hex s) ≡ s) × (length (from_hex s) ≡ n) × All IsByte (from_hex s)
unfolding to_hex from_hex
to_hex-from_hex zero [] e h = (refl, refl, tt)
to_hex-from_hex (suc n) [] e h = absurd (omega arith)
to_hex-from_hex n (c ∷ []) e h = absurd (omega arith)
to_hex-from_hex zero (c ∷ l ∷ s) e h = absurd (omega arith)
to_hex-from_hex (suc n) (c ∷ l ∷ s) e h =
    let hc : is_lower_hex c ≡ true = ground arith in
    let hl : is_lower_hex l ≡ true = ground arith in
    let high = hex_value-lt c hc in
    let low = hex_value-lt l hl in
    let rest = to_hex-from_hex n s (omega arith) (ground arith) in
    let byte = 16 * hex_value c + hex_value l in
    let upper : byte / 16 ≡ hex_value c = omega arith in
    let lower_ : byte % 16 ≡ hex_value l = omega arith in
    (
      cc (
        ap hex_digit upper ∙ hex_digit-hex_value c hc,
        ap hex_digit lower_ ∙ hex_digit-hex_value l hl,
        rest.0,
      ),
      omega (arith, rest.1),
      (omega arith, rest.2),
    )

pub all-append : (p : ℕ → Bool) (xs ys : List ℕ) → all p (xs ++ ys) ≡ (all p xs && all p ys)
all-append p [] ys = refl
all-append p (x ∷ xs) ys = ground (arith, all-append p xs ys)

pub All-take : (P : ℕ → Type 0) (n : ℕ) (xs : List ℕ) → All P xs → All P (take n xs)
All-take P zero xs h = tt
All-take P (suc n) [] h = tt
All-take P (suc n) (x ∷ xs) (p, h) = (p, All-take P n xs h)

pub all-take : (p : ℕ → Bool) (n : ℕ) (xs : List ℕ) → all p xs ≡ true → all p (take n xs) ≡ true
all-take p zero xs h = refl
all-take p (suc n) [] h = refl
all-take p (suc n) (x ∷ xs) h = ground (arith, all-take p n xs)

pub all-drop : (p : ℕ → Bool) (n : ℕ) (xs : List ℕ) → all p xs ≡ true → all p (drop n xs) ≡ true
all-drop p zero xs h = h
all-drop p (suc n) [] h = refl
all-drop p (suc n) (x ∷ xs) h = ground (arith, all-drop p n xs)

pub take-append : (n : ℕ) (xs ys : List ℕ) → length xs ≡ n → take n (xs ++ ys) ≡ xs
take-append zero [] ys h = refl
take-append zero (x ∷ xs) ys h = absurd (omega arith)
take-append (suc n) [] ys h = absurd (omega arith)
take-append (suc n) (x ∷ xs) ys h = ap (λ zs. x ∷ zs) (take-append n xs ys (omega arith))

pub drop-append : (n : ℕ) (xs ys : List ℕ) → length xs ≡ n → drop n (xs ++ ys) ≡ ys
drop-append zero [] ys h = refl
drop-append zero (x ∷ xs) ys h = absurd (omega arith)
drop-append (suc n) [] ys h = absurd (omega arith)
drop-append (suc n) (x ∷ xs) ys h = drop-append n xs ys (omega arith)
