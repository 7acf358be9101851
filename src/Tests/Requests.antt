-- ===== src/Tests/Requests.antt =====
-- Runs of requests for a payout, and the theorems on them.
use dash_faucet_cf.Base.Sort.{sort}
use dash_faucet_cf.Tx.{fee_ceiling}
use dash_faucet_cf.Tx.Select.{required_for, largest_first_from, select_many, select_inputs}
use dash_faucet_cf.Tx.Build.{own_from, finish, readdress, build_payout}
use dash_faucet_cf.Treasury.Ledger.{
  prune, settle_row, settle_rows, reconcile, set_coin, coin_map, add_pending, distinct_from,
  record_verdict, classify, classify_young, ledger_coins, offered, spendable_after, spendable_utxos,
  lock_outpoints, lock_inputs, add_own_outputs, record_spend, spent_today,
}
use dash_faucet_cf.Treasury.Broadcast.{
  settle_rejected, settle_silent, settle_again, settle_broadcast,
}
use dash_faucet_cf.Treasury.Keys.{
  limit_per_day, settle_amount, authorize_key_payout, record_key_payout,
}
use dash_faucet_cf.Treasury.Merging.{schedule_maintenance}
use dash_faucet_cf.Treasury.Admission.{admit_budget, admit_ip, admit_public, admission}
use dash_faucet_cf.Treasury.Payout.{
  or_with_all, build_sparing, add_budget, record_claim, charge, charge_uncertain, commit, conclude,
  send, pay_from, pay_view, pay, pay_admitted, payout_locked,
}
use dash_faucet_cf.Accounts.{check_row, check_code, record_redemption}
use dash_faucet_cf.Base.{ℕ, ◌+◌, ◌≡◌, ◌≢◌, refl, String, true, false, none, some, [], ◌∷◌, arith}
use dash_faucet_cf.Base.Text.{codes}
use dash_faucet_cf.Config.{soft}
use dash_faucet_cf.Db.{Db}
use dash_faucet_cf.Captcha.{to_hex, from_hex, mac, timing_safe_equal_hex, differences, cap_work}
use dash_faucet_cf.Captcha.Token.{
  verify_cap_token, check_cap_token, parse_token, big_endian, derive_cap_token, valid,
}
use dash_faucet_cf.Treasury.Admission.{Receipt}
use dash_faucet_cf.Treasury.Tokens.{consume_cap_token, after_all, call}
use dash_faucet_cf.Treasury.Invitations.Ending.{pay as payout}
use dash_faucet_cf.Worker.{
  WorkerConfig, Body, no_amount, no_code, Outside, recipient, passed, Response, success,
  payout_response, proved, burn, verify_presented, verify_captcha, cap_tier, can_escalate,
}
use dash_faucet_cf.Worker.Proof.{verify_captcha-once}
use dash_faucet_cf.Worker.Faucet.{
  answer_payout, pay_public, pay_recipient, amount_refused, handle_public, handle_bearer,
  handle_faucet,
}
use dash_faucet_cf.Worker.Faucet.Allowed.{IsPaidFor, handle_faucet-IsPaidFor}
use dash_faucet_cf.Tests.{settings, world_at, ask, stocked}
use dash_faucet_cf.Tests.Captchas.{toy_crypto, toy_crypto-IsMac, shape}

abbrev worker : WorkerConfig
worker = record {
  faucet = settings;
  is_testnet = true;
  turnstile_secret = "t";
  cap_secret = "s3";
  cap_params = shape;
  hard_cap_params = record { c = 2; s = 8; d = 2 };
}

abbrev cap_token_text : String
cap_token_text =
    "018bcfee8fc0010701010203040506ff999999999999999999bebebebebebebebebebebebebebebebebebebebebebebebebebebebebebebebe"

abbrev asking : Body
asking = record {
  ill_typed = false;
  address = some "yUser";
  turnstile_token = none;
  cap_token = some cap_token_text;
  hard_cap_token = none;
  amount_field = no_amount;
  code = no_code;
  bearer = none;
}

abbrev outside_at : ℕ → Outside
outside_at now = record {
  ip = "1.2.3.4";
  is_edge_limited = false;
  recipient_of = λ address. recipient record { address = "yUser"; pub_key_hash = "user" };
  site_verify = λ token. passed;
  crypto = toy_crypto;
  hash_api_key = λ token. "h";
  verified_at = now;
  burned_at = now;
}

abbrev first_time : ℕ
first_time = 1_700_000_700_000

token_valid :
    verify_cap_token toy_crypto (b's' ∷ b'3' ∷ []) (codes cap_token_text) first_time
    ≡ valid 1_700_001_200_000 shape
unfolding verify_cap_token check_cap_token parse_token big_endian derive_cap_token to_hex from_hex
    mac timing_safe_equal_hex differences
token_valid = refl

worked_for : (verify_captcha (outside_at first_time) worker asking stocked).1 ≡ proved soft
unfolding verify_captcha verify_presented burn verify_cap_token check_cap_token parse_token
    big_endian derive_cap_token to_hex from_hex mac timing_safe_equal_hex differences cap_tier
    cap_work consume_cap_token
worked_for = refl

verify_captcha-once_example :
    (verify_captcha (outside_at (first_time + 5000)) worker asking (
      after_all
        (call (payout settings (world_at first_time) ask) ∷ [])
        (verify_captcha (outside_at first_time) worker asking stocked).0)).1
    ≢ proved soft
verify_captcha-once_example =
    verify_captcha-once (outside_at first_time) (outside_at (first_time + 5000)) worker asking
      asking cap_token_text 1_700_001_200_000 shape soft soft
      (call (payout settings (world_at first_time) ask) ∷ []) stocked refl refl token_valid
      worked_for (omega arith, tt) (omega arith)

abbrev granted : Receipt
granted = record {
  txid = "t1";
  satoshis = 100000;
  replay = false;
  dry_run = false;
  accepted = "relay" ∷ [];
  key_id = none;
  code_label = none;
}

abbrev handled : Db × Response
handled = handle_faucet (outside_at first_time) worker (world_at first_time) asking stocked

paid_run : handled.1 ≡ success granted "yUser"
unfolding handle_faucet handle_bearer handle_public pay_recipient pay_public answer_payout
    amount_refused payout_response can_escalate verify_captcha verify_presented burn
    verify_cap_token check_cap_token parse_token big_endian derive_cap_token to_hex from_hex mac
    timing_safe_equal_hex differences cap_tier cap_work consume_cap_token sort fee_ceiling
    required_for largest_first_from select_many select_inputs own_from finish readdress build_payout
    prune settle_row settle_rows reconcile set_coin coin_map add_pending distinct_from
    record_verdict classify classify_young ledger_coins offered spendable_after spendable_utxos
    lock_outpoints lock_inputs add_own_outputs record_spend spent_today settle_rejected
    settle_silent settle_again settle_broadcast limit_per_day settle_amount authorize_key_payout
    record_key_payout schedule_maintenance admit_budget admit_ip admit_public admission or_with_all
    build_sparing add_budget record_claim charge charge_uncertain commit conclude send pay_from
    pay_view pay pay_admitted payout_locked check_row check_code record_redemption
paid_run = refl

handle_faucet-IsPaidFor_example :
    IsPaidFor
      (outside_at first_time)
      worker
      (world_at first_time)
      asking
      stocked
      handled
      granted
      "yUser"
handle_faucet-IsPaidFor_example =
    handle_faucet-IsPaidFor (outside_at first_time) worker (world_at first_time) asking stocked
      granted "yUser" toy_crypto-IsMac paid_run

-- A used token that reaches the Treasury after its expiry counts as fresh again.
fresh_again : (consume_cap_token "t" 10 11 (consume_cap_token "t" 10 5 stocked).0).1 ≡ true
unfolding consume_cap_token
fresh_again = refl
