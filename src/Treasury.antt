-- ===== src/Treasury.antt =====
-- src/treasury.ts: the Durable Object that owns the spending. One call of a method that holds the
-- lock is one function from the tables to the tables; what the network and the libraries answer
-- during the call is its argument.
pub mod Ledger
pub mod Broadcast
pub mod Keys
pub mod Merging
pub mod Admission
pub mod Books
pub mod Payout
pub mod Tokens
pub mod Maintenance
pub mod Invitations
pub mod Status
use dash_faucet_cf.Base.{ℕ, String, Bool, Option, List}
use dash_faucet_cf.Tx.{Utxo, DashTx, FaucetKey}

-- `UtxoSnapshot` of src/chain/index.ts, without what only the status page shows.
pub record Snapshot : Type 0 where
  pub utxos : List Utxo
  pub tip_height : ℕ

-- `BroadcastResult` of src/chain/index.ts
pub record BroadcastResult : Type 0 where
  pub accepted : List String
  pub rejected : List String
  pub ambiguous : List String

-- What the chain client answers during one call, by transaction; `none` is a call that throws. A
-- transaction is broadcast at most twice in a call.
pub record Network : Type 0 where
  pub utxos : Option Snapshot
  pub is_coinbase : String → Option Bool
  pub broadcast : String → Option BroadcastResult
  pub rebroadcast : String → Option BroadcastResult
  pub any_knows_tx : String → Option Bool

-- The surroundings of one call: the clock, the network, the transaction library, the faucet's key
-- (`none` where its WIF does not load) and whether the alarm can be booked.
pub record World : Type 0 where
  pub now : ℕ
  pub clock : ℕ
  pub network : Network
  pub lib : DashTx
  pub key : Option FaucetKey
  pub alarm_works : Bool
