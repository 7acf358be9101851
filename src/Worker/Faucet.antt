-- ===== src/Worker/Faucet.antt =====
-- `handleFaucet`, `handleKeyFaucet`, `handleCapChallenge` and `handleCapRedeem` of src/index.ts.
pub mod Guards
pub mod Allowed
use dash_faucet_cf.Base.{
  ℕ, String, Bool, true, false, ◌&&◌, not, Option, none, some, List, [], ◌∷◌, ltb, same, ◌==◌,
  if◌then◌else◌, length,
}
use dash_faucet_cf.Base.Text.{codes}
use dash_faucet_cf.Config.{ProofTier}
use dash_faucet_cf.Db.{Db}
use dash_faucet_cf.Captcha.{Crypto}
use dash_faucet_cf.Captcha.Token.{CapChallenge, mint_challenge}
use dash_faucet_cf.Captcha.Solving.{
  RedeemResult, redeemed, refused, threw, starts_with, verify_solutions,
}
use dash_faucet_cf.Treasury.{World}
use dash_faucet_cf.Treasury.Keys.{is_active_api_key}
use dash_faucet_cf.Treasury.Admission.{PayoutRequest, not_authorized}
use dash_faucet_cf.Treasury.Payout.{payout_locked}
use dash_faucet_cf.Worker.{
  WorkerConfig, Body, Recipient, RecipientResult, recipient, address_error, Outside, Response,
  error_json, plain_error, retry_error, payout_response, CaptchaOutcome, proved, denied,
  verify_captcha, no_code, bad_code, code_key, CodeField, AmountField, no_amount, bad_amount,
  amount, can_escalate, text, Message, amounts_above, error_message,
}

-- `edgeLimited`
abbrev pub edge_limited : Response
edge_limited = retry_error 429 "Rate limit exceeded" 60 false

-- "dfk_"
abbrev pub key_prefix : List ℕ
key_prefix = b'd' ∷ b'f' ∷ b'k' ∷ b'_' ∷ []

-- `looksLikeApiKey` of src/apikeys.ts
unfoldable pub looks_like_api_key : String → Bool
looks_like_api_key token = starts_with key_prefix (codes token) && length (codes token) == 47

-- The request of the key that the Treasury gets.
abbrev pub key_request : Outside → String → Option ℕ → Recipient → PayoutRequest
key_request o token requested r = record {
  address = r.address;
  pub_key_hash = r.pub_key_hash;
  ip = o.ip;
  tier = none;
  api_key_hash = some (o.hash_api_key token);
  requested_sats = requested;
  code_key = none;
}

-- `payout`, and the answer to its result.
unfoldable pub answer_payout :
    WorkerConfig → World → PayoutRequest → Bool → String → Db → Db × Response
answer_payout cfg w request escalatable address db =
    let result = payout_locked cfg.faucet w request db in
    (result.0, payout_response result.1 escalatable address)

unfoldable pub pay_key :
    Outside → WorkerConfig → World → String → Option ℕ → RecipientResult → Db → Db × Response
unfolding answer_payout
pay_key o cfg w token requested (address_error message) db = (db, plain_error 400 message)
pay_key o cfg w token requested (recipient r) db =
    answer_payout cfg w (key_request o token requested r) false r.address db

-- `handleKeyFaucet`
unfoldable pub handle_key_faucet :
    Outside → WorkerConfig → World → String → Body → Db → Db × Response
unfolding pay_key looks_like_api_key
handle_key_faucet o cfg w token body db =
    if not (
      looks_like_api_key token
      && is_active_api_key cfg.faucet (o.hash_api_key token) o.verified_at db)
    then (db, if o.is_edge_limited then edge_limited else payout_response not_authorized false "")
    else elim (body.amount_field) [
      | no_amount ↦ pay_key o cfg w token none (o.recipient_of body.address) db
      | bad_amount ↦ (
        db,
        plain_error 400 "amount must be a number of DASH, at least 0.001, with at most 8 decimals",
      )
      | amount sats ↦ pay_key o cfg w token (some sats) (o.recipient_of body.address) db
    ]

abbrev pub key_of : CodeField → Option String
key_of no_code = none
key_of (bad_code message) = none
key_of (code_key key) = some key

abbrev pub has_code : CodeField → Bool
has_code no_code = false
has_code (bad_code message) = false
has_code (code_key key) = true

-- The request of the public faucet that the Treasury gets.
abbrev pub public_request : Outside → ProofTier → CodeField → Recipient → PayoutRequest
public_request o tier code r = record {
  address = r.address;
  pub_key_hash = r.pub_key_hash;
  ip = o.ip;
  tier = some tier;
  api_key_hash = none;
  requested_sats = none;
  code_key = key_of code;
}

abbrev pub is_missing : Option String → Bool
is_missing none = true
is_missing (some s) = same s ""

-- A captcha that failed; on testnet a client is told to work for a token, if it brought none.
abbrev pub captcha_error : WorkerConfig → Body → ℕ → String → Response
captcha_error cfg body status reason = error_json record {
  status = status;
  error = text reason;
  detail_message = none;
  authenticate = false;
  retry_after = none;
  requires_hard_captcha = false;
  requires_proof_of_work =
      cfg.is_testnet
      && not (same cfg.cap_secret "")
      && is_missing body.cap_token
      && is_missing body.hard_cap_token;
}

-- From the captcha on.
unfoldable pub pay_public :
    Outside → WorkerConfig → World → Body → Recipient → Db × CaptchaOutcome → Db × Response
unfolding answer_payout can_escalate
pay_public o cfg w body r (db, denied status reason) = (db, captcha_error cfg body status reason)
pay_public o cfg w body r (db, proved tier) =
    answer_payout cfg w (public_request o tier body.code r)
      (not (has_code body.code) && can_escalate cfg tier) r.address db

-- From the recipient on.
unfoldable pub pay_recipient :
    Outside → WorkerConfig → World → Body → RecipientResult → Db → Db × Response
unfolding pay_public verify_captcha
pay_recipient o cfg w body (address_error message) db = (db, plain_error 400 message)
pay_recipient o cfg w body (recipient r) db =
    pay_public o cfg w body r (verify_captcha o cfg body db)

-- The amount that a public request may name.
unfoldable pub amount_refused : WorkerConfig → AmountField → Option Message
amount_refused cfg no_amount = none
amount_refused cfg bad_amount = some (text "Invalid amount")
amount_refused cfg (amount sats) =
    if ltb cfg.faucet.payout_sats sats then some (amounts_above cfg.faucet.payout_sats) else none

-- From the amount on.
unfoldable pub handle_public : Outside → WorkerConfig → World → Body → Db → Db × Response
unfolding pay_recipient amount_refused
handle_public o cfg w body db = elim (amount_refused cfg body.amount_field) [
  | some message ↦ (db, error_message 400 message)
  | none ↦
      if o.is_edge_limited
      then (db, edge_limited)
      else pay_recipient o cfg w body (o.recipient_of body.address) db
]

-- From the bearer token on.
unfoldable pub handle_bearer :
    Outside → WorkerConfig → World → Body → Option String → Db → Db × Response
unfolding handle_key_faucet handle_public
handle_bearer o cfg w body (some token) db =
    if has_code body.code
    then (db, plain_error 400 "A code cannot be combined with an API key")
    else handle_key_faucet o cfg w token body db
handle_bearer o cfg w body none db = handle_public o cfg w body db

-- `handleFaucet`
unfoldable pub handle_faucet : Outside → WorkerConfig → World → Body → Db → Db × Response
unfolding handle_bearer
handle_faucet o cfg w body db =
    let rest = handle_bearer o cfg w body body.bearer db in
    if body.ill_typed
    then (db, plain_error 400 "Address and captcha tokens must be strings")
    else elim (body.code) [
      | bad_code message ↦ (db, plain_error 400 message)
      | no_code ↦ rest
      | code_key key ↦ rest
    ]

-- The answers of the captcha's own requests.
pub data CapResponse : Type 0 where
  challenge : CapChallenge → CapResponse
  token_of : List ℕ → ℕ → CapResponse
  cap_error : ℕ → String → CapResponse

abbrev pub not_configured : CapResponse
not_configured = cap_error 503 "Proof-of-work captcha is not configured"

-- `handleCapChallenge`
unfoldable pub handle_cap_challenge : Crypto → WorkerConfig → Bool → ℕ → List ℕ → CapResponse
unfolding mint_challenge
handle_cap_challenge k cfg hard_tier now random =
    if same cfg.cap_secret ""
    then not_configured
    else challenge (
        mint_challenge k (codes cfg.cap_secret)
          (if hard_tier then cfg.hard_cap_params else cfg.cap_params) now random)

-- The answer to `verifySolutions`
abbrev pub redeem_response : RedeemResult → CapResponse
redeem_response (redeemed cap_token expires) = token_of cap_token expires
redeem_response (refused reason) = cap_error 400 reason
redeem_response threw = cap_error 500 "Internal server error"

-- `handleCapRedeem`, from the parsed body on
unfoldable pub handle_cap_redeem :
    Crypto → WorkerConfig → Option (List ℕ) → Option (List (Option ℕ)) → ℕ → CapResponse
unfolding verify_solutions
handle_cap_redeem k cfg token solutions now =
    if same cfg.cap_secret ""
    then not_configured
    else redeem_response (verify_solutions k (codes cfg.cap_secret) token solutions now)
