-- ===== src/Worker/Faucet/Guards.antt =====
-- The guards of `handleFaucet` in src/index.ts, which a successful answer has passed.
use dash_faucet_cf.Base.{
  ℕ, String, ◌≡◌, refl, ◌≢◌, Bool, true, false, ◌&&◌, not, Option, none, some, if◌then◌else◌,
}
use dash_faucet_cf.Db.{Db}
use dash_faucet_cf.Treasury.Admission.{
  Receipt, PayoutResult, paid, too_many_requests, budget_exhausted, not_authorized, code_invalid,
  code_used, bad_request, fragmented, no_funds, own_address, chain_unavailable, build_error,
  exception,
}
use dash_faucet_cf.Worker.{
  ErrorBody, Response, success, error_json, payout_response, CodeField, no_code, bad_code, code_key,
  AmountField, no_amount, bad_amount, amount, Message, error_message, plain_error,
}
use dash_faucet_cf.Worker.Faucet.{edge_limited}

pub payout_response-success :
    (p : PayoutResult) (escalatable : Bool) (given address : String) (receipt : Receipt)
    → payout_response p escalatable given ≡ success receipt address
    → (p ≡ paid receipt) × (given ≡ address)
unfolding payout_response
payout_response-success (paid r) escalatable given address receipt h = (cc (h), cc (h))
payout_response-success (too_many_requests n) escalatable given address receipt h = absurd (cc)
payout_response-success (budget_exhausted n) escalatable given address receipt h = absurd (cc)
payout_response-success not_authorized escalatable given address receipt h = absurd (cc)
payout_response-success code_invalid escalatable given address receipt h = absurd (cc)
payout_response-success code_used escalatable given address receipt h = absurd (cc)
payout_response-success (bad_request d) escalatable given address receipt h = absurd (cc)
payout_response-success (fragmented e none) escalatable given address receipt h = absurd (cc)
payout_response-success (fragmented e (some n)) escalatable given address receipt h = absurd (cc)
payout_response-success (no_funds d) escalatable given address receipt h = absurd (cc)
payout_response-success own_address escalatable given address receipt h = absurd (cc)
payout_response-success (chain_unavailable d) escalatable given address receipt h = absurd (cc)
payout_response-success build_error escalatable given address receipt h = absurd (cc)
payout_response-success exception escalatable given address receipt h = absurd (cc)

-- What holds of a successful answer, past a guard.
module _ (P : Db × Response → Type 0) (db : Db) (receipt : Receipt) (address : String) where
  abbrev pub Kept : Db × Response → Type 0
  Kept outcome = outcome.1 ≡ success receipt address → P outcome

  pub guarded :
      (stop : Bool) (e : ErrorBody) (rest : Db × Response)
      → (stop ≡ false → Kept rest)
      → Kept (if stop then (db, error_json e) else rest)
  guarded true e rest f h = absurd (cc)
  guarded false e rest f h = f refl h

  pub guarded_answer :
      (stop : Bool) (answer : Response) (rest : Db × Response)
      → answer ≢ success receipt address
      → (stop ≡ false → Kept rest)
      → Kept (if stop then (db, answer) else rest)
  guarded_answer true answer rest other f h = absurd (other h)
  guarded_answer false answer rest other f h = f refl h

  pub guarded_message :
      (m : Option Message) (rest : Db × Response)
      → Kept rest
      → Kept (elim m [ some message ↦ (db, error_message 400 message) | none ↦ rest ])
  guarded_message none rest f h = f h
  guarded_message (some message) rest f h = absurd (cc)

  pub guarded_code :
      (code : CodeField) (rest : Db × Response)
      → Kept rest
      → Kept (elim code [
        | bad_code message ↦ (db, plain_error 400 message)
        | no_code ↦ rest
        | code_key key ↦ rest
      ])
  guarded_code no_code rest f h = f h
  guarded_code (bad_code message) rest f h = absurd (cc)
  guarded_code (code_key key) rest f h = f h

  pub guarded_amount :
      (a : AmountField) (e : ErrorBody) (bare : Db × Response) (asked : ℕ → Db × Response)
      → (a ≡ no_amount → Kept bare)
      → ((sats : ℕ) → a ≡ amount sats → Kept (asked sats))
      → Kept
          (elim a [ no_amount ↦ bare | bad_amount ↦ (db, error_json e) | amount sats ↦ asked sats ])
  guarded_amount no_amount e bare asked f g h = f refl h
  guarded_amount bad_amount e bare asked f g h = absurd (cc)
  guarded_amount (amount sats) e bare asked f g h = g sats refl h

pub both_hold : (a b : Bool) → not (a && b) ≡ false → (a ≡ true) × (b ≡ true)
both_hold true true h = (refl, refl)
both_hold true false h = absurd (cc)
both_hold false b h = absurd (cc)

pub turned_away :
    (limited : Bool) (receipt : Receipt) (address : String)
    → (if limited then edge_limited else payout_response not_authorized false "")
      ≢ success receipt address
unfolding payout_response
turned_away true receipt address h = cc (h)
turned_away false receipt address h = cc (h)
