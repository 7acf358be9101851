-- ===== src/Chain/Settling.antt =====
-- The Treasury of src/treasury.ts on the chain client of src/chain/index.ts: what a settled or a
-- rejected broadcast rests on.
use dash_faucet_cf.Base.{String, ◌≡◌, ◌⊎◌, true, false, any, all}
use dash_faucet_cf.Db.{Db}
use dash_faucet_cf.Treasury.{Network}
use dash_faucet_cf.Treasury.Broadcast.{Settlement, settled, unsettled, threw}
use dash_faucet_cf.Chain.{Client, any_knows_tx}
use dash_faucet_cf.Chain.Tip.{active}
use dash_faucet_cf.Chain.Reading.{get_utxos, is_coinbase}
use dash_faucet_cf.Chain.Relay.{broadcast}
use dash_faucet_cf.Chain.Relay.Vouched.{asked}
use dash_faucet_cf.Chain.Relay.Verdicts.{took, refuses}
use dash_faucet_cf.Chain.Known.{vouches}

-- The network of one call of the Treasury: the providers as they answer the first broadcast, and as
-- they answer what is asked after it.
unfoldable pub network_of : Client → Client → Network
network_of c later = record {
  utxos = get_utxos c;
  is_coinbase = λ txid. is_coinbase c txid;
  broadcast = λ txid. broadcast c txid;
  rebroadcast = λ txid. broadcast later txid;
  any_knows_tx = λ txid. any_knows_tx (active later) later.fallback txid;
}

-- A configured provider took the transaction, at one of the attempts, or says that it has it.
abbrev pub HasWitness : Client → Client → String → Type 0
HasWitness c later txid =
    (any (took txid) (asked c) ≡ true)
    ⊎ (any (took txid) (asked later) ≡ true)
    ⊎ (any (vouches txid) (active later) ≡ true)
    ⊎ (any (vouches txid) later.fallback ≡ true)

-- What each outcome rests on.
abbrev pub RestsOn : Client → Client → String → Settlement → Type 0
RestsOn c later txid (settled names) = HasWitness c later txid
RestsOn c later txid (unsettled false why) = all (refuses txid) (asked c) ≡ true
RestsOn c later txid (unsettled true why) =
    (any (took txid) (asked c) ≡ false) × (any (took txid) (asked later) ≡ false)
RestsOn c later txid threw = Unit
