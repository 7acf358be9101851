-- ===== src/Worker.antt =====
-- The requests of src/index.ts for the captcha and for a payout, on the Treasury's tables.
pub mod Proof
pub mod Faucet
use dash_faucet_cf.Base.{
  ℕ, String, Bool, true, false, ◌&&◌, ◌||◌, not, Option, none, some, ltb, leb, same, if◌then◌else◌,
}
use dash_faucet_cf.Base.Text.{codes}
use dash_faucet_cf.Config.{FaucetConfig, ProofTier, soft, turnstile, hard}
use dash_faucet_cf.Db.{Db}
use dash_faucet_cf.Captcha.{CapParams, Crypto, cap_work}
use dash_faucet_cf.Captcha.Token.{CapTokenCheck, valid, invalid, verify_cap_token}
use dash_faucet_cf.Tx.{self_pay}
use dash_faucet_cf.Treasury.Tokens.{consume_cap_token}
use dash_faucet_cf.Treasury.Keys.{KeyDecision}
use dash_faucet_cf.Treasury.Admission.{
  Receipt, Detail, tx_error, PayoutResult, paid, too_many_requests, budget_exhausted,
  not_authorized, code_invalid, code_used, bad_request, fragmented, no_funds, own_address,
  chain_unavailable, build_error, exception,
}

-- The settings of the captchas, beside those of the Treasury; an empty secret is none.
pub record WorkerConfig : Type 0 where
  pub faucet : FaucetConfig
  pub is_testnet : Bool
  pub turnstile_secret : String
  pub cap_secret : String
  pub cap_params : CapParams
  pub hard_cap_params : CapParams

-- `capTier` and `canEscalate` of src/config.ts
unfoldable pub cap_tier : WorkerConfig → CapParams → ProofTier
unfolding cap_work
cap_tier cfg params = if leb (cap_work cfg.hard_cap_params) (cap_work params) then hard else soft

abbrev pub is_hard : ProofTier → Bool
is_hard hard = true
is_hard soft = false
is_hard turnstile = false

unfoldable pub can_escalate : WorkerConfig → ProofTier → Bool
can_escalate cfg tier =
    not (is_hard tier)
    && not (same cfg.cap_secret "")
    && ltb (cfg.faucet.rate_limits tier) (cfg.faucet.rate_limits hard)

-- What `parseCodeField` makes of a code: none, an error, or a key.
pub data CodeField : Type 0 where
  no_code : CodeField
  bad_code : String → CodeField
  code_key : String → CodeField

-- What `parseAmountSats` makes of an amount: none, an unusable one, or satoshis.
pub data AmountField : Type 0 where
  no_amount bad_amount : AmountField
  amount : ℕ → AmountField

-- The JSON body, with the bearer token; `ill_typed` is a field that is no string.
pub record Body : Type 0 where
  pub ill_typed : Bool
  pub address : Option String
  pub turnstile_token : Option String
  pub cap_token : Option String
  pub hard_cap_token : Option String
  pub amount_field : AmountField
  pub code : CodeField
  pub bearer : Option String

pub record Recipient : Type 0 where
  pub address : String
  pub pub_key_hash : String

pub data RecipientResult : Type 0 where
  recipient : Recipient → RecipientResult
  address_error : String → RecipientResult

-- `TurnstileOutcome`
pub data TurnstileOutcome : Type 0 where
  passed : TurnstileOutcome
  failed : Option String → TurnstileOutcome

-- What the call meets: the edge's limiter, the services, the cryptography and the clocks.
pub record Outside : Type 0 where
  pub ip : String
  pub is_edge_limited : Bool
  pub recipient_of : Option String → RecipientResult
  pub site_verify : String → TurnstileOutcome
  pub crypto : Crypto
  pub hash_api_key : String → String
  pub verified_at : ℕ
  pub burned_at : ℕ

-- The texts of an error: `key_detail` and `amounts_above` are those with an amount in them,
-- `payout_detail` is the detail of a payout that failed and `described` is what `describeError`
-- makes of an exception.
pub data Message : Type 0 where
  text : String → Message
  key_detail : KeyDecision → Message
  amounts_above : ℕ → Message
  payout_detail : Detail → Message
  described : Message

-- `errorJson`, with the fields that it may add; `authenticate` is the header `WWW-Authenticate`.
pub record ErrorBody : Type 0 where
  pub status : ℕ
  pub error : Message
  pub detail_message : Option Message
  pub authenticate : Bool
  pub retry_after : Option ℕ
  pub requires_hard_captcha : Bool
  pub requires_proof_of_work : Bool

pub data Response : Type 0 where
  success : Receipt → String → Response
  error_json : ErrorBody → Response

abbrev pub error_message : ℕ → Message → Response
error_message status message = error_json record {
  status = status;
  error = message;
  detail_message = none;
  authenticate = false;
  retry_after = none;
  requires_hard_captcha = false;
  requires_proof_of_work = false;
}

abbrev pub plain_error : ℕ → String → Response
plain_error status message = error_message status (text message)

abbrev pub retry_error : ℕ → String → ℕ → Bool → Response
retry_error status message seconds harder = error_json record {
  status = status;
  error = text message;
  detail_message = none;
  authenticate = false;
  retry_after = some seconds;
  requires_hard_captcha = harder;
  requires_proof_of_work = false;
}

-- With the detail of what failed.
abbrev pub detailed_error : ℕ → String → Message → Option ℕ → Response
detailed_error status message detail retry_after = error_json record {
  status = status;
  error = text message;
  detail_message = some detail;
  authenticate = false;
  retry_after = retry_after;
  requires_hard_captcha = false;
  requires_proof_of_work = false;
}

-- A key that is not taken.
abbrev pub unauthorized : String → Response
unauthorized message = error_json record {
  status = 401;
  error = text message;
  detail_message = none;
  authenticate = true;
  retry_after = none;
  requires_hard_captcha = false;
  requires_proof_of_work = false;
}

abbrev pub fragmented_message : String
fragmented_message =
    "No coin large enough for this amount yet; coins must be merged or confirmed first, so try again later"

-- `payoutFailure` over `PAYOUT_FAILURES`, and `payoutSuccess`; `exception` is answered by `fetch`.
unfoldable pub payout_response : PayoutResult → Bool → String → Response
payout_response (paid receipt) escalatable address = success receipt address
payout_response (too_many_requests seconds) escalatable address =
    retry_error 429 "Rate limit exceeded" seconds escalatable
payout_response (budget_exhausted seconds) escalatable address =
    retry_error 429 "Faucet daily budget exhausted" seconds false
payout_response not_authorized escalatable address =
    unauthorized "Invalid, expired or revoked API key"
payout_response code_invalid escalatable address =
    plain_error 400 "Invalid, expired or fully redeemed code"
payout_response code_used escalatable address =
    plain_error 400 "This code was already redeemed by this address"
payout_response (bad_request decision) escalatable address = error_message 400 (key_detail decision)
payout_response (fragmented e retry_after) escalatable address =
    detailed_error 503 fragmented_message (payout_detail (tx_error e)) retry_after
payout_response (no_funds detail) escalatable address =
    detailed_error 503 "Faucet has insufficient funds" (payout_detail detail) none
payout_response own_address escalatable address =
    detailed_error 400 "That is the faucet's own deposit address — send to a wallet you control"
      (payout_detail (tx_error self_pay)) none
payout_response (chain_unavailable detail) escalatable address =
    detailed_error 503 "Chain providers unavailable" (payout_detail detail) none
payout_response build_error escalatable address =
    detailed_error 500 "Internal server error" (text "could not build transaction") none
payout_response exception escalatable address =
    detailed_error 500 "Internal server error" described none

-- `a || b`, of texts that may be missing or empty
abbrev pub or_text : Option String → Option String → Option String
or_text none b = b
or_text (some a) b = if same a "" then b else some a

-- `CaptchaOutcome`
pub data CaptchaOutcome : Type 0 where
  proved : ProofTier → CaptchaOutcome
  denied : ℕ → String → CaptchaOutcome

-- What is done with the answer of `verifyCapToken`: the token is burned.
unfoldable pub burn : Outside → WorkerConfig → String → CapTokenCheck → Db → Db × CaptchaOutcome
unfolding cap_tier consume_cap_token
burn o cfg token (invalid reason) db = (db, denied 400 reason)
burn o cfg token (valid expires params) db =
    let burned = consume_cap_token token expires o.burned_at db in
    if burned.1
    then (burned.0, proved (cap_tier cfg params))
    else (burned.0, denied 400 "Captcha token already used")

abbrev pub outcome_of : TurnstileOutcome → CaptchaOutcome
outcome_of passed = proved turnstile
outcome_of (failed none) = denied 400 "Captcha verification failed"
outcome_of (failed (some reason)) = denied 400 reason

-- Without a capToken.
unfoldable pub verify_other : Outside → WorkerConfig → Option String → CaptchaOutcome
verify_other o cfg none =
    if not (same cfg.turnstile_secret "") || not (same cfg.cap_secret "")
    then denied 400 "Captcha token required"
    else proved soft
verify_other o cfg (some token) =
    if not (same cfg.turnstile_secret "")
    then outcome_of (o.site_verify token)
    else if not (same cfg.cap_secret "")
    then denied 400 "Captcha token required"
    else proved soft

-- With the capToken that the request brought, if it did.
unfoldable pub verify_presented :
    Outside → WorkerConfig → Body → Option String → Db → Db × CaptchaOutcome
unfolding burn verify_other verify_cap_token
verify_presented o cfg body none db = (db, verify_other o cfg (or_text body.turnstile_token none))
verify_presented o cfg body (some token) db =
    if same cfg.cap_secret ""
    then (db, denied 400 "Proof-of-work captcha is not configured")
    else burn o cfg token
        (verify_cap_token o.crypto (codes cfg.cap_secret) (codes token) o.verified_at) db

-- The capToken of a request.
abbrev pub presented : Body → Option String
presented body = or_text (or_text body.cap_token body.hard_cap_token) none

-- `verifyCaptcha`
unfoldable pub verify_captcha : Outside → WorkerConfig → Body → Db → Db × CaptchaOutcome
unfolding verify_presented
verify_captcha o cfg body db = verify_presented o cfg body (presented body) db
