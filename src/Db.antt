-- ===== src/Db.antt =====
-- The tables that the Treasury keeps in SQLite (the CREATE TABLE statements of src/treasury.ts and
-- src/accounts.ts), each as the list of its rows in order of insertion, with the alarm of the
-- Durable Object. A UTC day stands as the number of days since the epoch.
pub mod Sql
pub mod Selecting
use dash_faucet_cf.Base.{ℕ, ◌/◌, String, Bool, Option, none, List, []}
use dash_faucet_cf.Tx.{BuiltTx}

abbrev pub hour_ms : ℕ
hour_ms = 3600000

abbrev pub day_ms : ℕ
day_ms = 86400000

-- `utcDay`
abbrev pub utc_day : ℕ → ℕ
utc_day now = now / day_ms

pub record Claim : Type 0 where
  pub recipient : String
  pub day : ℕ
  pub txid : String
  pub satoshis : ℕ
  pub created_at : ℕ

pub record IpHit : Type 0 where
  pub ip : String
  pub created_at : ℕ

pub record SpentRow : Type 0 where
  pub txid : String
  pub vout : ℕ
  pub created_at : ℕ

pub record PendingRow : Type 0 where
  pub txid : String
  pub vout : ℕ
  pub satoshis : ℕ
  pub created_at : ℕ

pub record BudgetRow : Type 0 where
  pub day : ℕ
  pub satoshis : ℕ

pub record CoinbaseCheck : Type 0 where
  pub txid : String
  pub is_coinbase : Bool
  pub checked_at : ℕ

pub record UsedCap : Type 0 where
  pub token : String
  pub expires_at : ℕ

pub record MergeDemand : Type 0 where
  pub satoshis : ℕ
  pub created_at : ℕ

pub data HitKind : Type 0 where
  by_ip by_device : HitKind

pub record InvitationHit : Type 0 where
  pub kind : HitKind
  pub value_hash : String
  pub created_at : ℕ

pub data VoucherState : Type 0 where
  broadcast_unknown awaiting_chainlock available issued claimed failed : VoucherState

-- `built_json` is the transaction that it encodes.
pub record InvitationRow : Type 0 where
  pub id : String
  pub txid : String
  pub built : BuiltTx
  pub cipher_hex : String
  pub iv_hex : String
  pub prospective_identity_id : String
  pub amount_sats : Option ℕ
  pub state : VoucherState
  pub chain_locked_height : Option ℕ
  pub device_hash : Option String
  pub issued_at : Option ℕ
  pub created_at : ℕ
  pub updated_at : ℕ

pub data KeyTier : Type 0 where
  trusted mn : KeyTier

pub record ApiKeyRow : Type 0 where
  pub hash : String
  pub id : String
  pub label : String
  pub tier : KeyTier
  pub per_day : Option ℕ
  pub created_at : ℕ
  pub revoked_at : Option ℕ
  pub last_used_at : Option ℕ
  pub payouts : ℕ
  pub paid_sats : ℕ
  pub owner : Option String
  pub expires_at : Option ℕ
  pub created_by : Option String
  pub revoked_by : Option String

pub record KeyPayout : Type 0 where
  pub key_id : String
  pub txid : String
  pub address : String
  pub satoshis : ℕ
  pub created_at : ℕ

pub data CodeKind : Type 0 where
  event voucher : CodeKind

pub record CodeRow : Type 0 where
  pub id : String
  pub code : String
  pub code_key : String
  pub kind : CodeKind
  pub label : String
  pub amount_sats : ℕ
  pub max_redemptions : ℕ
  pub redemptions : ℕ
  pub expires_at : Option ℕ
  pub disabled : Bool
  pub batch : Option String
  pub created_by : String
  pub created_at : ℕ
  pub updated_at : ℕ
  pub updated_by : Option String

pub record Redemption : Type 0 where
  pub code_id : String
  pub address : String
  pub txid : String
  pub satoshis : ℕ
  pub created_at : ℕ

pub record Db : Type 0 where
  pub claims : List Claim
  pub ip_hits : List IpHit
  pub spent : List SpentRow
  pub pending : List PendingRow
  pub budget : List BudgetRow
  pub coinbase_checks : List CoinbaseCheck
  pub used_cap : List UsedCap
  pub inventory : List InvitationRow
  pub invitation_hits : List InvitationHit
  pub api_keys : List ApiKeyRow
  pub key_payouts : List KeyPayout
  pub merge_demand : List MergeDemand
  pub codes : List CodeRow
  pub code_redemptions : List Redemption
  pub alarm : Option ℕ

-- A new deployment.
abbrev pub empty_db : Db
empty_db = record {
  claims = [];
  ip_hits = [];
  spent = [];
  pending = [];
  budget = [];
  coinbase_checks = [];
  used_cap = [];
  inventory = [];
  invitation_hits = [];
  api_keys = [];
  key_payouts = [];
  merge_demand = [];
  codes = [];
  code_redemptions = [];
  alarm = none;
}
