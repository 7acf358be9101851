-- ===== src/Treasury/Admission.antt =====
-- The start of `payoutLocked` of src/treasury.ts: the request, the results, and the checks that are
-- made before any coin is looked at.
use dash_faucet_cf.Base.{
  ℕ, ◌+◌, ◌-◌, ◌*◌, String, Bool, true, false, ◌&&◌, Option, none, some, List, [], ltb, leb, ◌==◌,
  same, if◌then◌else◌, length, filter, find,
}
use dash_faucet_cf.Config.{FaucetConfig, ProofTier, soft}
use dash_faucet_cf.Db.{Db, ApiKeyRow, CodeRow, Claim, IpHit, hour_ms, day_ms, utc_day}
use dash_faucet_cf.Db.Sql.{min_or, retry_seconds}
use dash_faucet_cf.Tx.{TxError}
use dash_faucet_cf.Accounts.{CodeCheck, valid, invalid, used, check_code, or_else}
use dash_faucet_cf.Treasury.Ledger.{spent_today}
use dash_faucet_cf.Treasury.Broadcast.{Refusal}
use dash_faucet_cf.Treasury.Keys.{
  KeyDecision, authorized, unauthorized, amount_not_collateral, amount_too_large, rate_limited,
  authorize_key_payout,
}

pub record PayoutRequest : Type 0 where
  pub address : String
  pub pub_key_hash : String
  pub ip : String
  pub tier : Option ProofTier
  pub api_key_hash : Option String
  pub requested_sats : Option ℕ
  pub code_key : Option String

-- The successful result.
pub record Receipt : Type 0 where
  pub txid : String
  pub satoshis : ℕ
  pub replay : Bool
  pub dry_run : Bool
  pub accepted : List String
  pub key_id : Option String
  pub code_label : Option String

-- The numbers from which the text of a `detail` is made.
pub data Detail : Type 0 where
  below_reserve : ℕ → ℕ → Detail
  tx_error : TxError → Detail
  chain_error : Detail
  not_settled : Refusal → Detail

-- `PayoutResult`, one constructor per `code`; `exception` is a rejected promise.
pub data PayoutResult : Type 0 where
  paid : Receipt → PayoutResult
  too_many_requests : ℕ → PayoutResult
  budget_exhausted : ℕ → PayoutResult
  not_authorized code_invalid code_used : PayoutResult
  bad_request : KeyDecision → PayoutResult
  fragmented : TxError → Option ℕ → PayoutResult
  no_funds : Detail → PayoutResult
  own_address : PayoutResult
  chain_unavailable : Detail → PayoutResult
  build_error exception : PayoutResult

-- Who pays: the public faucet, an API key or a code.
pub data Payer : Type 0 where
  public_faucet : Payer
  by_key : ApiKeyRow → Payer
  by_code : CodeRow → Payer

pub data Admission : Type 0 where
  refuse : PayoutResult → Admission
  admit : Payer → ℕ → Admission

abbrev pub hit_counts : String → ℕ → IpHit → Bool
hit_counts ip now h = same h.ip ip && ltb now (h.created_at + hour_ms)

-- The hits of the address in the last hour.
abbrev pub recent_hits : String → ℕ → Db → List IpHit
recent_hits ip now db = filter (hit_counts ip now) db.ip_hits

abbrev pub claim_of : String → ℕ → Claim → Bool
claim_of recipient day c = same c.recipient recipient && c.day == day

-- 3. The daily budget.
unfoldable pub admit_budget : FaucetConfig → ℕ → Db → Admission
admit_budget cfg now db =
    if ltb cfg.daily_budget_sats (spent_today (utc_day now) db + cfg.payout_sats)
    then refuse (budget_exhausted (retry_seconds ((utc_day now + 1) * day_ms - now)))
    else admit public_faucet cfg.payout_sats

-- 2. The limit per IP.
unfoldable pub admit_ip : FaucetConfig → PayoutRequest → ℕ → Db → Admission
unfolding admit_budget
admit_ip cfg input now db =
    if leb (cfg.rate_limits (or_else input.tier soft)) (length (recent_hits input.ip now db))
    then refuse (
        too_many_requests (
          retry_seconds
            (min_or now (λ h. h.created_at) (recent_hits input.ip now db) + hour_ms - now)))
    else admit_budget cfg now db

abbrev pub replay_of : Claim → PayoutResult
replay_of prior = paid record {
  txid = prior.txid;
  satoshis = prior.satoshis;
  replay = true;
  dry_run = false;
  accepted = [];
  key_id = none;
  code_label = none;
}

-- 1. Idempotency, then the limits.
unfoldable pub admit_public : FaucetConfig → PayoutRequest → ℕ → Db → Admission
unfolding admit_ip
admit_public cfg input now db = elim (find (claim_of input.address (utc_day now)) db.claims) [
  | some prior ↦ refuse (replay_of prior)
  | none ↦ admit_ip cfg input now db
]

abbrev pub admit_key : KeyDecision → Admission
admit_key (authorized key satoshis) = admit (by_key key) satoshis
admit_key unauthorized = refuse not_authorized
admit_key (rate_limited seconds) = refuse (too_many_requests seconds)
admit_key amount_not_collateral = refuse (bad_request amount_not_collateral)
admit_key amount_too_large = refuse (bad_request amount_too_large)

abbrev pub admit_code : CodeCheck → Admission
admit_code (valid code) = admit (by_code code) code.amount_sats
admit_code invalid = refuse code_invalid
admit_code used = refuse code_used

-- The checks before any coin is looked at.
unfoldable pub admission : FaucetConfig → PayoutRequest → ℕ → Db → Admission
unfolding admit_public authorize_key_payout check_code
admission cfg input now db = elim (input.api_key_hash) [
  | some hash ↦ admit_key (authorize_key_payout cfg hash input.requested_sats now db)
  | none ↦ elim (input.code_key) [
    | some key ↦
        if cfg.api_keys.enabled
        then admit_code (check_code db key input.address now)
        else refuse code_invalid
    | none ↦ admit_public cfg input now db
  ]
]
