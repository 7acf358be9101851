-- ===== src/Base/Text.antt =====
-- Texts as lists of code points, for the code that looks inside a string.
use Prim.Native.Char.{code}
use Prim.Native.String.{String}
use Prim.Native.Nat.{ℕ, ◌+◌}
use mathlib.Core.Bool.{Bool, true, false, ◌&&◌, ◌||◌}
use mathlib.Core.List.{List, [], ◌∷◌, ◌++◌}
use dash_faucet_cf.Base.Tests.{leb, ◌==◌, if◌then◌else◌}

abbrev pub codes : String → List ℕ
codes String.[] = []
codes (String.◌∷◌ c s) = code c ∷ codes s

-- `toLowerCase` on ASCII
abbrev pub lower : ℕ → ℕ
lower c = if leb b'A' c && leb c b'Z' then c + 32 else c

-- `s.startsWith(t)`, in lower case
abbrev pub starts_with_lower : List ℕ → List ℕ → Bool
starts_with_lower [] s = true
starts_with_lower (t ∷ ts) [] = false
starts_with_lower (t ∷ ts) (c ∷ s) = lower c == t && starts_with_lower ts s

-- A search for a needle in lower case, with the flag `i`.
abbrev pub contains_lower : List ℕ → List ℕ → Bool
contains_lower needle [] = starts_with_lower needle []
contains_lower needle (c ∷ s) = starts_with_lower needle (c ∷ s) || contains_lower needle s

-- `texts.join(separator)`
abbrev pub join : List ℕ → List String → List ℕ
join separator [] = []
join separator (s ∷ []) = codes s
join separator (s ∷ t ∷ ts) = codes s ++ (separator ++ join separator (t ∷ ts))
