-- ===== src/Treasury/Payout/Refused.antt =====
-- What the checks of `payoutLocked` answer to a request that they refuse.
use dash_faucet_cf.Base.{
  refl, not, ◌&&◌, ℕ, ◌+◌, ◌≡◌, String, Bool, true, false, Option, none, some, if◌then◌else◌, ltb,
  leb, length, find,
}
use dash_faucet_cf.Config.{FaucetConfig, soft}
use dash_faucet_cf.Db.{Db, Claim, utc_day}
use dash_faucet_cf.Treasury.Ledger.{spent_today}
use dash_faucet_cf.Treasury.Keys.{
  KeyDecision, authorized, unauthorized, amount_not_collateral, amount_too_large, rate_limited,
  authorize_key_payout,
}
use dash_faucet_cf.Accounts.{CodeCheck, valid, invalid, used, check_code, or_else}
use dash_faucet_cf.Treasury.Admission.{
  PayoutRequest, PayoutResult, paid, public_faucet, Admission, refuse, admit, admission, admit_key,
  admit_code, admit_public, admit_ip, admit_budget, too_many_requests, budget_exhausted,
  code_invalid, claim_of, replay_of, recent_hits,
}

-- The result is a receipt for a payout that this call made.
abbrev pub is_new_receipt : PayoutResult → Bool
is_new_receipt (paid r) = not r.replay && not r.dry_run
is_new_receipt _ = false

-- A refusal is no receipt but that of a replay.
abbrev pub IsReplayAtMost : Admission → Type 0
IsReplayAtMost (refuse result) = is_new_receipt result ≡ false
IsReplayAtMost (admit payer satoshis) = Unit

admit_key-IsReplayAtMost : (d : KeyDecision) → IsReplayAtMost (admit_key d)
admit_key-IsReplayAtMost (authorized key satoshis) = tt
admit_key-IsReplayAtMost unauthorized = refl
admit_key-IsReplayAtMost (rate_limited seconds) = refl
admit_key-IsReplayAtMost amount_not_collateral = refl
admit_key-IsReplayAtMost amount_too_large = refl

admit_code-IsReplayAtMost : (c : CodeCheck) → IsReplayAtMost (admit_code c)
admit_code-IsReplayAtMost (valid code) = tt
admit_code-IsReplayAtMost invalid = refl
admit_code-IsReplayAtMost used = refl

admit_public-IsReplayAtMost :
    (cfg : FaucetConfig) (input : PayoutRequest) (now : ℕ) (db : Db)
    → IsReplayAtMost (admit_public cfg input now db)
unfolding admit_public admit_ip admit_budget
admit_public-IsReplayAtMost cfg input now db =
    prior (find (claim_of input.address (utc_day now)) db.claims)
  where
    budget :
        (b : Bool) (n : ℕ)
        → IsReplayAtMost
            (if b then refuse (budget_exhausted n) else admit public_faucet cfg.payout_sats)
    budget true n = refl
    budget false n = tt

    limit :
        (b : Bool) (n : ℕ)
        → IsReplayAtMost (if b then refuse (too_many_requests n) else admit_budget cfg now db)
    limit true n = refl
    limit false n =
        budget (ltb cfg.daily_budget_sats (spent_today (utc_day now) db + cfg.payout_sats)) _

    prior :
        (o : Option Claim)
        → IsReplayAtMost
            (elim o [ some c ↦ refuse (replay_of c) | none ↦ admit_ip cfg input now db ])
    prior (some c) = refl
    prior none =
        limit
          (leb (cfg.rate_limits (or_else input.tier soft)) (length (recent_hits input.ip now db))) _

pub admission-IsReplayAtMost :
    (cfg : FaucetConfig) (input : PayoutRequest) (now : ℕ) (db : Db)
    → IsReplayAtMost (admission cfg input now db)
unfolding admission
admission-IsReplayAtMost cfg input now db = key input.api_key_hash input.code_key
  where
    code :
        (enabled : Bool) (k : String)
        → IsReplayAtMost (
            if enabled then admit_code (check_code db k input.address now) else refuse code_invalid)
    code true k = admit_code-IsReplayAtMost (check_code db k input.address now)
    code false k = refl

    key :
        (hash : Option String) (c : Option String)
        → IsReplayAtMost (elim hash [
          | some x ↦ admit_key (authorize_key_payout cfg x input.requested_sats now db)
          | none ↦ elim c [
            | some k ↦
                if cfg.api_keys.enabled
                then admit_code (check_code db k input.address now)
                else refuse code_invalid
            | none ↦ admit_public cfg input now db
          ]
        ])
    key (some x) c =
        admit_key-IsReplayAtMost (authorize_key_payout cfg x input.requested_sats now db)
    key none (some k) = code cfg.api_keys.enabled k
    key none none = admit_public-IsReplayAtMost cfg input now db
