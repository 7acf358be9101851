-- ===== src/Tests/Relays.antt =====
-- Runs of the chain client, and its theorems there.
use dash_faucet_cf.Base.{◌≡◌, refl, true, false, none, some, [], ◌∷◌}
use dash_faucet_cf.Base.Int.{pos}
use dash_faucet_cf.Tx.{BuiltTx}
use dash_faucet_cf.Treasury.{BroadcastResult}
use dash_faucet_cf.Chain.{Provider, Client, returned, raised, any_knows_tx}
use dash_faucet_cf.Chain.Errors.{
  rejected, ambiguous, is_already_known, classify_broadcast_error, is_transport_failure,
  is_rejection,
}
use dash_faucet_cf.Chain.Tip.{
  heights, trusted_heights, sampled_heights, tip_height, survey_with, evonode_vote,
}
use dash_faucet_cf.Chain.Tip.Vote.{IsVotedFor, IsReached, tip_height-IsVotedFor}
use dash_faucet_cf.Chain.Reading.{get_utxos}
use dash_faucet_cf.Chain.Reading.Current.{IsCurrent, get_utxos-IsCurrent}
use dash_faucet_cf.Chain.Relay.{broadcast}
use dash_faucet_cf.Chain.Known.{IsKnownToAny, any_knows_tx-IsKnownToAny}
use dash_faucet_cf.Tests.{wallet}

-- An explorer that lists the wallet and refuses the transaction.
abbrev explorer : Provider
explorer = record {
  name = "insight";
  is_dapi = false;
  is_evonode = false;
  can_broadcast = true;
  can_read_utxos = true;
  get_height = some 300;
  get_utxos = none;
  get_utxos_again = some wallet;
  is_aborted = false;
  has_tx = λ txid. some false;
  broadcast = λ txid. raised "18: bad-txns-inputs-spent";
  is_coinbase = none;
  get_chain_lock_status = none;
}

-- An evonode that is far ahead and says yes to everything.
abbrev stranger : Provider
stranger = record {
  name = "dapi";
  is_dapi = true;
  is_evonode = true;
  can_broadcast = true;
  can_read_utxos = false;
  get_height = some 900;
  get_utxos = none;
  get_utxos_again = none;
  is_aborted = false;
  has_tx = λ txid. some true;
  broadcast = λ txid. returned txid;
  is_coinbase = none;
  get_chain_lock_status = none;
}

abbrev client : Client
client = record { primary = explorer ∷ []; sampled = stranger ∷ []; fallback = [] }

reads_codes :
    (classify_broadcast_error "RPC -26: dust" ≡ rejected)
    × (classify_broadcast_error "HTTP 503: bad-txns" ≡ ambiguous)
    × (classify_broadcast_error "code -261" ≡ ambiguous)
    × (classify_broadcast_error "DAPI (grpc 3) oops" ≡ rejected)
    × (is_already_known "Transaction already in block chain" ≡ true)
unfolding classify_broadcast_error is_transport_failure is_rejection is_already_known
reads_codes = (refl, refl, refl, refl, refl)

abbrev outcome : BroadcastResult
outcome = record {
  accepted = [];
  rejected = "insight: 18: bad-txns-inputs-spent" ∷ [];
  ambiguous = "dapi: accepted, unvouched by a configured relay" ∷ [];
}

abbrev own_tx : BuiltTx
own_tx = record {
  hex = "hex";
  txid = "t1";
  inputs = [];
  own_outputs = [];
  fee = pos 300;
  total_in = 1000;
}

any_knows_tx-IsKnownToAny_example :
    IsKnownToAny "t1"
      (stranger ∷ explorer ∷ [])
      []
      (any_knows_tx (stranger ∷ explorer ∷ []) [] "t1")
any_knows_tx-IsKnownToAny_example = any_knows_tx-IsKnownToAny (stranger ∷ explorer ∷ []) [] "t1"

get_utxos-IsCurrent_example : IsCurrent (survey_with client) (get_utxos client)
get_utxos-IsCurrent_example = get_utxos-IsCurrent client

tip_is_310 : tip_height (heights (explorer ∷ stranger ∷ [])) ≡ some 310
unfolding tip_height evonode_vote
tip_is_310 = refl

tip_height-IsVotedFor_example :
    IsVotedFor
      (trusted_heights (heights (explorer ∷ stranger ∷ [])))
      (sampled_heights (heights (explorer ∷ stranger ∷ [])))
      310
    × IsReached
        (trusted_heights (heights (explorer ∷ stranger ∷ [])))
        (sampled_heights (heights (explorer ∷ stranger ∷ [])))
        310
tip_height-IsVotedFor_example =
    tip_height-IsVotedFor (heights (explorer ∷ stranger ∷ [])) 310 tip_is_310
