-- ===== src/Worker/Faucet/Allowed.antt =====
-- `handleFaucet` of src/index.ts pays only those who proved something.
use dash_faucet_cf.Base.{
  ℕ, String, ◌≡◌, refl, sym, ap, ◌∙◌, ◌⊎◌, inl, inr, Bool, true, false, ◌&&◌, not, Option, none,
  some,
}
use dash_faucet_cf.Config.{ProofTier}
use dash_faucet_cf.Db.{Db}
use dash_faucet_cf.Captcha.Token.Signed.{IsMac}
use dash_faucet_cf.Treasury.{World}
use dash_faucet_cf.Treasury.Keys.{is_active_api_key}
use dash_faucet_cf.Treasury.Admission.{PayoutRequest, Receipt, paid}
use dash_faucet_cf.Treasury.Payout.{payout_locked}
use dash_faucet_cf.Worker.{
  AmountField, no_amount, bad_amount, amount, WorkerConfig, Body, Recipient, RecipientResult,
  recipient, address_error, Outside, Response, success, CaptchaOutcome, proved, denied,
  verify_captcha, can_escalate,
}
use dash_faucet_cf.Worker.Proof.{IsProven, verify_captcha-IsProven}
use dash_faucet_cf.Worker.Faucet.{
  looks_like_api_key, key_request, answer_payout, pay_key, handle_key_faucet, key_of, has_code,
  public_request, pay_public, pay_recipient, amount_refused, handle_public, handle_bearer,
  handle_faucet,
}
use dash_faucet_cf.Worker.Faucet.Guards.{
  payout_response-success, guarded, guarded_answer, guarded_message, guarded_code, guarded_amount,
  both_hold, turned_away,
}

-- The satoshis that a request names.
abbrev pub asked_sats : AmountField → Option ℕ
asked_sats no_amount = none
asked_sats bad_amount = none
asked_sats (amount sats) = some sats

-- The Treasury gets `request` on the tables `before`, and why it may.
abbrev pub IsAllowed : Outside → WorkerConfig → Body → Db → PayoutRequest → Db → Type 0
IsAllowed o cfg body db request before =
    ((body.bearer ≡ none)
      × ((tier : ProofTier) × IsProven o cfg body db tier
          × (request.tier ≡ some tier)
          × (request.api_key_hash ≡ none)
          × (request.ip ≡ o.ip)
          × (request.code_key ≡ key_of body.code)
          × (before ≡ (verify_captcha o cfg body db).0)))
    ⊎ ((token : String) × (body.bearer ≡ some token)
        × (is_active_api_key cfg.faucet (o.hash_api_key token) o.verified_at db ≡ true)
        × (looks_like_api_key token ≡ true)
        × (request.api_key_hash ≡ some (o.hash_api_key token))
        × (request.requested_sats ≡ asked_sats body.amount_field)
        × (before ≡ db))

-- A payout that was made for a request that may be.
abbrev pub IsPaidFor :
    Outside → WorkerConfig → World → Body → Db → Db × Response → Receipt → String → Type 0
IsPaidFor o cfg w body db outcome receipt address =
    (request : PayoutRequest) × (before : Db) × IsAllowed o cfg body db request before
    × (payout_locked cfg.faucet w request before ≡ (outcome.0, paid receipt))
    × (o.recipient_of body.address
        ≡ recipient record { address = address; pub_key_hash = request.pub_key_hash })
    × (request.address ≡ address)

module _ (o : Outside) (cfg : WorkerConfig) (w : World) (receipt : Receipt) (address : String) where
  answer_payout-success :
      (request : PayoutRequest) (escalatable : Bool) (given : String) (db : Db)
      → (answer_payout cfg w request escalatable given db).1 ≡ success receipt address
      → (payout_locked cfg.faucet w request db
          ≡ ((answer_payout cfg w request escalatable given db).0, paid receipt))
        × (given ≡ address)
  unfolding answer_payout
  answer_payout-success request escalatable given db h =
      let result = payout_locked cfg.faucet w request db in
      let (got, to_) = payout_response-success result.1 escalatable given address receipt h in
      (ap (λ p. (result.0, p)) got, to_)

  module _ (body : Body) (db : Db) where
    abbrev Paid : Db × Response → Type 0
    Paid outcome = IsPaidFor o cfg w body db outcome receipt address

    pay_public-success :
        (r : Recipient) (captcha : Db × CaptchaOutcome)
        → o.recipient_of body.address ≡ recipient r
        → verify_captcha o cfg body db ≡ captcha
        → IsMac o.crypto
        → body.bearer ≡ none
        → (pay_public o cfg w body r captcha).1 ≡ success receipt address
        → Paid (pay_public o cfg w body r captcha)
    unfolding pay_public
    pay_public-success r (before, denied status reason) at e is_mac nobody h = absurd (cc)
    pay_public-success r (before, proved tier) at e is_mac nobody h =
        let request = public_request o tier body.code r in
        let escalatable = not (has_code body.code) && can_escalate cfg tier in
        let (made, to_) = answer_payout-success request escalatable r.address before h in
        let proof = verify_captcha-IsProven o cfg body db tier is_mac (ap (λ c. c.1) e) in
        (
          request,
          before,
          inl (nobody, (tier, proof, refl, refl, refl, refl, sym (ap (λ c. c.0) e))),
          made,
          at ∙ ap (λ a. recipient record { address = a; pub_key_hash = r.pub_key_hash }) to_,
          to_,
        )

    pay_recipient-success :
        (r : RecipientResult)
        → o.recipient_of body.address ≡ r
        → IsMac o.crypto
        → body.bearer ≡ none
        → (pay_recipient o cfg w body r db).1 ≡ success receipt address
        → Paid (pay_recipient o cfg w body r db)
    unfolding pay_recipient
    pay_recipient-success (address_error message) at is_mac nobody h = absurd (cc)
    pay_recipient-success (recipient r) at is_mac nobody h =
        pay_public-success r (verify_captcha o cfg body db) at refl is_mac nobody h

    handle_public-success :
        IsMac o.crypto
        → body.bearer ≡ none
        → (handle_public o cfg w body db).1 ≡ success receipt address
        → Paid (handle_public o cfg w body db)
    unfolding handle_public
    handle_public-success is_mac nobody =
        guarded_message Paid db receipt address (amount_refused cfg body.amount_field) _ (
          guarded Paid db receipt address o.is_edge_limited _ _
            (λ free. pay_recipient-success (o.recipient_of body.address) refl is_mac nobody))

    module _ (token : String) (bears : body.bearer ≡ some token) where
      pay_key-success :
          (requested : Option ℕ) (r : RecipientResult)
          → o.recipient_of body.address ≡ r
          → requested ≡ asked_sats body.amount_field
          → looks_like_api_key token ≡ true
          → is_active_api_key cfg.faucet (o.hash_api_key token) o.verified_at db ≡ true
          → (pay_key o cfg w token requested r db).1 ≡ success receipt address
          → Paid (pay_key o cfg w token requested r db)
      unfolding pay_key
      pay_key-success requested (address_error message) at asks alike active h = absurd (cc)
      pay_key-success requested (recipient r) at asks alike active h =
          let request = key_request o token requested r in
          let (made, to_) = answer_payout-success request false r.address db h in
          (
            request,
            db,
            inr (token, bears, active, alike, refl, asks, refl),
            made,
            at ∙ ap (λ a. recipient record { address = a; pub_key_hash = r.pub_key_hash }) to_,
            to_,
          )

      handle_key_faucet-success :
          (handle_key_faucet o cfg w token body db).1 ≡ success receipt address
          → Paid (handle_key_faucet o cfg w token body db)
      unfolding handle_key_faucet
      handle_key_faucet-success =
          let active = is_active_api_key cfg.faucet (o.hash_api_key token) o.verified_at db in
          let r = o.recipient_of body.address in
          guarded_answer Paid db receipt address (not (looks_like_api_key token && active)) _ _
            (turned_away o.is_edge_limited receipt address)
            (λ known.
              let (alike, is_active) = both_hold (looks_like_api_key token) active known in
              guarded_amount Paid db receipt address body.amount_field _ _ _
                (λ e. pay_key-success none r refl (ap asked_sats (sym e)) alike is_active)
                (λ sats e.
                  pay_key-success (some sats) r refl (ap asked_sats (sym e)) alike is_active))

    handle_bearer-success :
        (bearer : Option String)
        → IsMac o.crypto
        → body.bearer ≡ bearer
        → (handle_bearer o cfg w body bearer db).1 ≡ success receipt address
        → Paid (handle_bearer o cfg w body bearer db)
    unfolding handle_bearer
    handle_bearer-success none is_mac e = handle_public-success is_mac e
    handle_bearer-success (some token) is_mac e =
        guarded Paid db receipt address (has_code body.code) _ _
          (λ coded. handle_key_faucet-success token e)

-- Where an HMAC is 32 bytes, a request that is answered with a receipt (of a payout, of its
-- repetition or of a dry run) got it from the Treasury, for the address of the answer, which is
-- the one that the request's recipient was read as, with its key hash: without a bearer token, at
-- the tier, from the IP and with the code of the request, where a fresh capToken that the faucet
-- signed and whose work is worth the tier was burned, or Turnstile confirmed the token, or no
-- captcha is configured; with one, which looks like an API key, by the key of the token, which was
-- active, and for the amount that the request asks for.
pub handle_faucet-IsPaidFor :
    (o : Outside) (cfg : WorkerConfig) (w : World) (body : Body) (db : Db) (receipt : Receipt)
    (address : String)
    → IsMac o.crypto
    → (handle_faucet o cfg w body db).1 ≡ success receipt address
    → IsPaidFor o cfg w body db (handle_faucet o cfg w body db) receipt address
unfolding handle_faucet
handle_faucet-IsPaidFor o cfg w body db receipt address is_mac =
    guarded (Paid o cfg w receipt address body db) db receipt address body.ill_typed _ _ (λ typed.
      guarded_code (Paid o cfg w receipt address body db) db receipt address body.code _
        (handle_bearer-success o cfg w receipt address body db body.bearer is_mac refl))
