-- ===== src/Treasury/Payout/Entitled.antt =====
-- What a payer must satisfy for an amount.
use dash_faucet_cf.Base.{
  ℕ, ◌+◌, ◌≤◌, ◌<◌, ◌≡◌, String, true, false, Option, none, some, length, find, any,
}
use dash_faucet_cf.Config.{FaucetConfig, soft, mn_collateral_sats}
use dash_faucet_cf.Db.{Db, ApiKeyRow, CodeRow, KeyTier, trusted, mn, utc_day}
use dash_faucet_cf.Treasury.Ledger.{spent_today}
use dash_faucet_cf.Treasury.Keys.{recent_payouts, has_hash, is_live}
use dash_faucet_cf.Accounts.{has_code_key, has_expired, redeemed_by, or_else}
use dash_faucet_cf.Treasury.Admission.{
  PayoutRequest, Payer, public_faucet, by_key, by_code, claim_of, recent_hits,
}

-- The number is below the limit, where there is one.
abbrev pub IsBelowLimit : ℕ → Option ℕ → Type 0
IsBelowLimit n none = Unit
IsBelowLimit n (some limit) = n < limit

-- The key has a payout left in the last day.
abbrev pub HasPayoutLeft : ApiKeyRow → ℕ → Db → Type 0
HasPayoutLeft key now db = IsBelowLimit (length (recent_payouts key.id now db)) key.per_day

-- The amounts that a key of the tier may draw.
abbrev pub IsAmountOf : FaucetConfig → KeyTier → ℕ → Type 0
IsAmountOf cfg mn satoshis = satoshis ≡ mn_collateral_sats
IsAmountOf cfg trusted satoshis = satoshis ≤ cfg.api_keys.max_per_request_sats

abbrev pub IsEntitledKey : FaucetConfig → String → ℕ → Db → ApiKeyRow → ℕ → Type 0
IsEntitledKey cfg hash now db key satoshis =
    (find (has_hash hash) db.api_keys ≡ some key)
    × (cfg.api_keys.enabled ≡ true)
    × (is_live now key ≡ true)
    × IsAmountOf cfg key.tier satoshis
    × HasPayoutLeft key now db

abbrev pub IsEntitledCode : String → String → ℕ → Db → CodeRow → Type 0
IsEntitledCode code_key address now db code =
    (find (has_code_key code_key) db.codes ≡ some code)
    × (code.disabled ≡ false)
    × (has_expired code.expires_at now ≡ false)
    × (code.redemptions < code.max_redemptions)
    × (any (redeemed_by code.id address) db.code_redemptions ≡ false)

-- What the payer of an amount must satisfy, written without the order of the checks.
abbrev pub IsEntitled : FaucetConfig → PayoutRequest → ℕ → Db → Payer → ℕ → Type 0
IsEntitled cfg input now db public_faucet satoshis =
    (satoshis ≡ cfg.payout_sats)
    × (find (claim_of input.address (utc_day now)) db.claims ≡ none)
    × (length (recent_hits input.ip now db) < cfg.rate_limits (or_else input.tier soft))
    × (spent_today (utc_day now) db + satoshis ≤ cfg.daily_budget_sats)
IsEntitled cfg input now db (by_key key) satoshis =
    (hash : String) × (input.api_key_hash ≡ some hash) × IsEntitledKey cfg hash now db key satoshis
IsEntitled cfg input now db (by_code code) satoshis =
    (code_key : String) × (input.code_key ≡ some code_key)
    × (satoshis ≡ code.amount_sats)
    × IsEntitledCode code_key input.address now db code
