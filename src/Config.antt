-- ===== src/Config.antt =====
-- The settings of src/config.ts that the modelled parts read, and the shared constants.
use dash_faucet_cf.Base.{ℕ, ◌*◌, Bool}

abbrev pub coin : ℕ
coin = 100000000

-- `MN_COLLATERAL_SATS` of src/apikeys.ts
abbrev pub mn_collateral_sats : ℕ
mn_collateral_sats = 1000 * coin

pub data ProofTier : Type 0 where
  soft turnstile hard : ProofTier

pub record ApiKeyConfig : Type 0 where
  pub enabled : Bool
  pub max_per_request_sats : ℕ
  pub reserve_sats : ℕ

pub record InvitationConfig : Type 0 where
  pub enabled : Bool
  pub amount_sats : ℕ
  pub inventory_target : ℕ
  pub max_per_request : ℕ
  pub ttl_ms : ℕ
  pub rate_window_ms : ℕ

pub record FaucetConfig : Type 0 where
  pub payout_sats : ℕ
  pub rate_limits : ProofTier → ℕ
  pub daily_budget_sats : ℕ
  pub pool_min : ℕ
  pub pool_target : ℕ
  pub pool_utxo_sats : ℕ
  pub dry_run : Bool
  pub max_payout_inputs : ℕ
  pub collateral_coins : ℕ
  pub api_keys : ApiKeyConfig
  pub invitations : InvitationConfig
