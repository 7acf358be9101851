-- ===== src/Chain/Errors.antt =====
-- The errors of a broadcast in src/chain/types.ts: `isAlreadyKnown` and `classifyBroadcastError`. A
-- message is read in lower case (of ASCII).
use dash_faucet_cf.Base.{
  ℕ, String, Bool, false, ◌&&◌, ◌||◌, not, List, [], ◌∷◌, leb, ◌==◌, if◌then◌else◌, any,
}
use dash_faucet_cf.Base.Text.{codes, lower, contains_lower}

-- `message.includes(needle)` for one of the needles.
abbrev pub mentions : List String → List ℕ → Bool
mentions needles m = any (λ needle. contains_lower (codes needle) m) needles

abbrev pub already_known : List String
already_known =
    "already in block chain" ∷ "already in chain" ∷ "already in the mempool" ∷ "already known"
    ∷ "txn-already-known" ∷ "txn-already-in-mempool" ∷ "-27" ∷ []

unfoldable pub is_already_known : String → Bool
is_already_known message = mentions already_known (codes message)

-- A test at some position of a text.
abbrev pub somewhere : (List ℕ → Bool) → List ℕ → Bool
somewhere here [] = here []
somewhere here (c ∷ s) = here (c ∷ s) || somewhere here s

abbrev pub is_digit : ℕ → Bool
is_digit c = leb b'0' c && leb c b'9'

-- `\w` in lower case
abbrev pub is_word : ℕ → Bool
is_word c = is_digit c || (leb b'a' (lower c) && leb (lower c) b'z') || c == b'_'

-- `http 5\d\d`, without its first five characters
abbrev pub is_server_error : List ℕ → Bool
is_server_error (a ∷ b ∷ c ∷ s) = a == b'5' && is_digit b && is_digit c
is_server_error s = false

-- `-2[2-6]\b`, without its first two characters
abbrev pub is_reject_code : List ℕ → Bool
is_reject_code [] = false
is_reject_code (d ∷ []) = leb b'2' d && leb d b'6'
is_reject_code (d ∷ c ∷ s) = leb b'2' d && leb d b'6' && not (is_word c)

-- `\(grpc [39]\)`, without its first six characters
abbrev pub is_refusal_status : List ℕ → Bool
is_refusal_status (d ∷ c ∷ s) = (d == b'3' || d == b'9') && c == b')'
is_refusal_status s = false

-- A text in lower case that goes on as the test asks.
abbrev pub followed_by : List ℕ → (List ℕ → Bool) → List ℕ → Bool
followed_by [] rest s = rest s
followed_by (t ∷ ts) rest [] = false
followed_by (t ∷ ts) rest (c ∷ s) = lower c == t && followed_by ts rest s

abbrev pub transport_failures : List String
transport_failures =
    "timeout" ∷ "timed out" ∷ "aborted" ∷ "abort" ∷ "network" ∷ "socket" ∷ "econn" ∷ "fetch failed"
    ∷ []

unfoldable pub is_transport_failure : List ℕ → Bool
is_transport_failure m =
    mentions transport_failures m || somewhere (followed_by (codes "http ") is_server_error) m

abbrev pub rejected_patterns : List String
rejected_patterns =
    "bad-txns" ∷ "missing inputs" ∷ "inputs-missingorspent" ∷ "mandatory-script-verify"
    ∷ "non-mandatory-script-verify" ∷ "min relay fee" ∷ "absurdly-high-fee" ∷ "dust"
    ∷ "tx decode failed" ∷ "txn-mempool-conflict" ∷ []

unfoldable pub is_rejection : List ℕ → Bool
is_rejection m =
    mentions rejected_patterns m
    || somewhere (followed_by (codes "-2") is_reject_code) m
    || somewhere (followed_by (codes "(grpc ") is_refusal_status) m

pub data BroadcastFailure : Type 0 where
  rejected ambiguous : BroadcastFailure

-- `classifyBroadcastError`: a failure of the transport comes first.
unfoldable pub classify_broadcast_error : String → BroadcastFailure
unfolding is_transport_failure is_rejection
classify_broadcast_error message =
    let m = codes message in
    if is_transport_failure m then ambiguous else if is_rejection m then rejected else ambiguous
