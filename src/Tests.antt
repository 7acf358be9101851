-- ===== src/Tests.antt =====
-- A small wallet, its settings and a network, for the runs of the tests.
mod Coins
mod Payouts
mod Records
mod Vouchers
mod Relays
mod Captchas
mod Requests
use dash_faucet_cf.Base.{
  ℕ, ◌+◌, ◌*◌, String, Bool, true, false, Option, none, some, List, [], ◌∷◌, ltb, total,
}
use dash_faucet_cf.Config.{FaucetConfig, ProofTier}
use dash_faucet_cf.Db.{Db, empty_db, day_ms, ApiKeyRow, trusted, CodeRow, event}
use dash_faucet_cf.Tx.{
  Utxo, FaucetKey, TxInput, TxOutput, Draft, SigningRequest, Signed, DashTx, BuiltTx,
}
use dash_faucet_cf.Base.Int.{pos}
use dash_faucet_cf.Treasury.{World, Network, Snapshot, BroadcastResult}
use dash_faucet_cf.Treasury.Admission.{PayoutRequest}

abbrev pub faucet_key : FaucetKey
faucet_key = record { pub_key_hash = "faucet"; address = "yFaucet" }

-- A library that signs whatever it is given, and pays the fee of its estimate.
abbrev pub plain_lib : DashTx
plain_lib = record {
  appraise_max = λ inputs outputs. 10 + 148 * inputs + 34 * outputs;
  legacy_dust = 2000;
  input_before = λ a b. ltb a.output_index b.output_index;
  output_before = λ a b. ltb a.satoshis b.satoshis;
  sum = λ inputs. total (λ i. i.satoshis) inputs;
  draft_single_output =
      λ utxos inputs output. some record { inputs = inputs; outputs = output ∷ []; change = none };
  finalize_presorted = λ draft inputs outputs.
      some record { transaction = "hex"; inputs = inputs; outputs = outputs; extra_payload = none };
  hash_and_sign_all = λ request. some record {
    transaction = "hex";
    inputs = request.inputs;
    outputs = request.outputs;
    extra_payload = request.extra_payload;
  };
  get_id = λ hex. "t1";
  create_pkh_script = λ hash. hash;
}

abbrev pub coin_of : String → ℕ → Option ℕ → Utxo
coin_of txid satoshis height = record {
  txid = txid;
  output_index = 0;
  satoshis = satoshis;
  script = "faucet";
  height = height;
}

abbrev pub wallet : List Utxo
wallet = coin_of "a" 60000 (some 5) ∷ coin_of "b" 250000 (some 6) ∷ coin_of "c" 90000 none ∷ []

abbrev pub settings : FaucetConfig
settings = record {
  payout_sats = 100000;
  rate_limits = λ tier. 2;
  daily_budget_sats = 150000;
  pool_min = 0;
  pool_target = 0;
  pool_utxo_sats = 1000;
  dry_run = false;
  max_payout_inputs = 3;
  collateral_coins = 1;
  api_keys = record { enabled = true; max_per_request_sats = 200000; reserve_sats = 0 };
  invitations = record {
    enabled = false;
    amount_sats = 0;
    inventory_target = 0;
    max_per_request = 0;
    ttl_ms = 0;
    rate_window_ms = 0;
  };
}

abbrev pub seen : BroadcastResult
seen = record { accepted = "relay" ∷ []; rejected = []; ambiguous = [] }

abbrev pub view : Snapshot
view = record { utxos = wallet; tip_height = 300 }

abbrev pub network : Network
network = record {
  utxos = some view;
  is_coinbase = λ txid. some false;
  broadcast = λ txid. some seen;
  rebroadcast = λ txid. some seen;
  any_knows_tx = λ txid. some true;
}

abbrev pub world_at : ℕ → World
world_at now = record {
  now = now;
  clock = now;
  network = network;
  lib = plain_lib;
  key = some faucet_key;
  alarm_works = true;
}

abbrev pub morning : ℕ
morning = 10 * day_ms + 1000

abbrev pub noon : ℕ
noon = 10 * day_ms + 43200000

abbrev pub ask : PayoutRequest
ask = record {
  address = "yUser";
  pub_key_hash = "user";
  ip = "1.2.3.4";
  tier = none;
  api_key_hash = none;
  requested_sats = none;
  code_key = none;
}

abbrev pub user_key : ApiKeyRow
user_key = record {
  hash = "h";
  id = "k";
  label = "mine";
  tier = trusted;
  per_day = some 2;
  created_at = 0;
  revoked_at = none;
  last_used_at = none;
  payouts = 0;
  paid_sats = 0;
  owner = some "ann";
  expires_at = none;
  created_by = some "ann";
  revoked_by = none;
}

abbrev pub ticket : CodeRow
ticket = record {
  id = "c";
  code = "CODE";
  code_key = "code";
  kind = event;
  label = "meetup";
  amount_sats = 50000;
  max_redemptions = 2;
  redemptions = 0;
  expires_at = none;
  disabled = false;
  batch = none;
  created_by = "ann";
  created_at = 0;
  updated_at = 0;
  updated_by = none;
}

-- A key and a code that nobody has used.
abbrev pub stocked : Db
stocked = record empty_db { api_keys = user_key ∷ []; codes = ticket ∷ [] }

abbrev pub ask_by_key : PayoutRequest
ask_by_key = record ask { api_key_hash = some "h" }

abbrev pub ask_by_code : PayoutRequest
ask_by_code = record ask { code_key = some "code" }
