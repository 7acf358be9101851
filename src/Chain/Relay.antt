-- ===== src/Chain/Relay.antt =====
-- `broadcast` and `relay` of src/chain/index.ts.
pub mod Verdicts
pub mod Vouched
use Prim.Native.String.{◌++◌ as text_append}
use dash_faucet_cf.Base.{
  ℕ, String, Bool, true, false, ◌&&◌, not, Option, none, some, List, [], ◌∷◌, ◌++◌, map, ◌==◌,
  if◌then◌else◌, filter,
}
use dash_faucet_cf.Base.Text.{codes, lower}
use dash_faucet_cf.Treasury.{BroadcastResult}
use dash_faucet_cf.Treasury.Broadcast.{is_empty}
use dash_faucet_cf.Chain.{Provider, Client, returned, raised}
use dash_faucet_cf.Chain.Errors.{rejected, ambiguous, is_already_known, classify_broadcast_error}
use dash_faucet_cf.Chain.Tip.{active}

abbrev pub same_codes : List ℕ → List ℕ → Bool
same_codes [] [] = true
same_codes (a ∷ as_) (b ∷ bs) = lower a == lower b && same_codes as_ bs
same_codes as_ bs = false

-- `a.toLowerCase() === b.toLowerCase()`
abbrev pub same_txid : String → String → Bool
same_txid a b = same_codes (codes a) (codes b)

-- What one relay's answer means.
pub data Verdict : Type 0 where
  taken : Verdict
  refused unclear : String → Verdict

-- The text of an answer with another txid.
abbrev pub wrong_txid : String → String
wrong_txid value = text_append "answered with txid " value

unfoldable pub verdict : String → Provider → Verdict
verdict txid p = elim (p.broadcast txid) [
  | returned value ↦
      if p.is_evonode && not (same_txid value txid) then unclear (wrong_txid value) else taken
  | raised message ↦
      if is_already_known message then taken else elim (classify_broadcast_error message) [
        | rejected ↦ refused message
        | ambiguous ↦ unclear message
      ]
]

-- The result so far, with the evonodes that took the transaction.
pub record Relayed : Type 0 where
  pub accepted : List String
  pub rejected : List String
  pub ambiguous : List String
  pub unvouched : List String

-- `${name}: ${text}`
abbrev pub noted : Provider → String → String
noted p text = text_append p.name (text_append ": " text)

-- One round of the loop of `relay`.
unfoldable pub relay_with : Provider → Verdict → Relayed → Relayed
relay_with p taken r =
    if p.is_evonode
    then record r { unvouched = r.unvouched ++ p.name ∷ [] }
    else record r { accepted = r.accepted ++ p.name ∷ [] }
relay_with p (refused text) r = record r { rejected = r.rejected ++ noted p text ∷ [] }
relay_with p (unclear text) r = record r { ambiguous = r.ambiguous ++ noted p text ∷ [] }

-- `relay`
unfoldable pub relay : String → List Provider → Relayed → Relayed
unfolding relay_with verdict
relay txid [] r = r
relay txid (p ∷ ps) r = relay txid ps (relay_with p (verdict txid p) r)

abbrev pub none_relayed : Relayed
none_relayed = record { accepted = []; rejected = []; ambiguous = []; unvouched = [] }

abbrev pub relays : List Provider → List Provider
relays providers = filter (λ p. p.can_broadcast) providers

-- The fallbacks get the transaction where no configured relay took it.
unfoldable pub relay_all : Client → String → Relayed
unfolding relay
relay_all c txid =
    let first = relay txid (relays (active c)) none_relayed in
    if is_empty first.accepted then relay txid (relays c.fallback) first else first

abbrev pub unvouched_note : String → String
unvouched_note name = text_append name ": accepted, unvouched by a configured relay"

-- What evonodes took counts only beside a configured relay.
unfoldable pub result_of : Relayed → BroadcastResult
result_of r =
    if is_empty r.accepted
    then record {
      accepted = r.accepted;
      rejected = r.rejected;
      ambiguous = r.ambiguous ++ map unvouched_note r.unvouched;
    }
    else record {
      accepted = r.accepted ++ r.unvouched;
      rejected = r.rejected;
      ambiguous = r.ambiguous;
    }

-- `broadcast`; it throws only where nothing can relay.
unfoldable pub broadcast : Client → String → Option BroadcastResult
unfolding relay_all result_of
broadcast c txid =
    if is_empty (relays (active c)) && is_empty c.fallback
    then none
    else some (result_of (relay_all c txid))
