-- ===== src/Captcha/Seeded.antt =====
-- `prng` and `subChallenge` of src/cap.ts.
pub mod Drawn
use Prim.Native.Nat.{bit_xor}
use dash_faucet_cf.Base.{
  ℕ, zero, suc, ◌+◌, ◌-◌, ◌*◌, ◌/◌, ◌%◌, ◌^◌, true, false, List, [], ◌∷◌, ◌++◌, ltb, if◌then◌else◌,
  length, take,
}
use dash_faucet_cf.Tx.Build.Payload.{hex_digit}
use dash_faucet_cf.Captcha.{CapParams}

-- `x >>> 0`
abbrev pub u32 : ℕ → ℕ
u32 x = x % 2 ^ 32

-- `n.toString(base)`, on fuel for its digits
unfoldable pub numeral : ℕ → ℕ → ℕ → List ℕ
numeral base zero n = []
numeral base (suc digits) n =
    let rest = numeral base digits (n / base) in
    if ltb n base then hex_digit n ∷ [] else rest ++ hex_digit (n % base) ∷ []

-- `String(n)` of a safe integer, which has at most sixteen digits
abbrev pub decimal : ℕ → List ℕ
decimal n = numeral 10 16 n

unfoldable pub zeros : ℕ → List ℕ
zeros zero = []
zeros (suc n) = b'0' ∷ zeros n

-- `s.padStart(8, "0")`
abbrev pub pad_eight : List ℕ → List ℕ
pad_eight s = zeros (8 - length s) ++ s

-- A round of FNV-1a.
unfoldable pub fnv_round : ℕ → ℕ → ℕ
fnv_round state code_unit = u32 (u32 (bit_xor state code_unit) * 0x01000193)

unfoldable pub seed_state : ℕ → List ℕ → ℕ
unfolding fnv_round
seed_state state [] = state
seed_state state (c ∷ seed) = seed_state (fnv_round state c) seed

-- The three shifts of a round of the loop.
unfoldable pub xorshift : ℕ → ℕ
xorshift state =
    let a = u32 (bit_xor state (u32 (state * 2 ^ 13))) in
    let b = u32 (bit_xor a (a / 2 ^ 17)) in u32 (bit_xor b (u32 (b * 2 ^ 5)))

-- What a round appends; a state has at most eight hex digits.
unfoldable pub chunk : ℕ → List ℕ
unfolding numeral zeros
chunk state = pad_eight (numeral 16 8 state)

-- The `while` loop, on fuel: every round appends something.
unfoldable pub emit : ℕ → ℕ → ℕ → List ℕ → List ℕ
unfolding xorshift chunk
emit zero size state out = out
emit (suc fuel) size state out = elim (ltb (length out) size) [
  | true ↦ emit fuel size (xorshift state) (out ++ chunk (xorshift state))
  | false ↦ out
]

unfoldable pub prng : List ℕ → ℕ → List ℕ
unfolding seed_state emit
prng seed size = take size (emit size size (seed_state 0x811c9dc5 seed) [])

pub record SubChallenge : Type 0 where
  pub salt : List ℕ
  pub target : List ℕ

unfoldable pub sub_challenge : List ℕ → ℕ → CapParams → SubChallenge
unfolding prng numeral
sub_challenge token i params = record {
  salt = prng (token ++ decimal i) params.s;
  target = prng (token ++ (decimal i ++ b'd' ∷ [])) params.d;
}
