-- ===== src/Treasury/Keys.antt =====
-- API keys of src/treasury.ts: authorization of a payout, minting, revocation and rotation.
pub mod Limits
pub mod Owned
use dash_faucet_cf.Base.{
  ℕ, ◌+◌, ◌-◌, String, Bool, true, false, ◌&&◌, ◌||◌, not, Option, none, some, List, [], ◌∷◌, ◌++◌,
  leb, ltb, ◌==◌, same, if◌then◌else◌, length, filter, find, any,
}
use dash_faucet_cf.Config.{FaucetConfig, mn_collateral_sats}
use dash_faucet_cf.Db.{Db, ApiKeyRow, KeyPayout, KeyTier, trusted, mn, day_ms}
use dash_faucet_cf.Db.Sql.{update_where, count_where, min_or, retry_seconds}
use dash_faucet_cf.Accounts.{has_expired, or_else}

abbrev pub has_hash : String → ApiKeyRow → Bool
has_hash hash r = same r.hash hash

abbrev pub is_null {ℓ} : {A : Type ℓ} → Option A → Bool
is_null o = elim o [ none ↦ true | some _ ↦ false ]

-- `revoked_at IS NULL AND (expires_at IS NULL OR expires_at > now)`
abbrev pub is_live : ℕ → ApiKeyRow → Bool
is_live now r = is_null r.revoked_at && not (has_expired r.expires_at now)

-- `isActiveApiKey`
unfoldable pub is_active_api_key : FaucetConfig → String → ℕ → Db → Bool
is_active_api_key cfg hash now db =
    cfg.api_keys.enabled && any (λ r. has_hash hash r && is_live now r) db.api_keys

-- What `authorizeKeyPayout` decides.
pub data KeyDecision : Type 0 where
  authorized : ApiKeyRow → ℕ → KeyDecision
  unauthorized amount_not_collateral amount_too_large : KeyDecision
  rate_limited : ℕ → KeyDecision

abbrev pub counted_payout : String → ℕ → KeyPayout → Bool
counted_payout id now p = same p.key_id id && ltb now (p.created_at + day_ms)

-- The payouts of the key in the last day.
abbrev pub recent_payouts : String → ℕ → Db → List KeyPayout
recent_payouts id now db = filter (counted_payout id now) db.key_payouts

-- The limit of payouts per day, once the amount is settled.
unfoldable pub limit_per_day : ApiKeyRow → ℕ → ℕ → Db → KeyDecision
limit_per_day row satoshis now db = elim (row.per_day) [
  | none ↦ authorized row satoshis
  | some per_day ↦
      if leb per_day (length (recent_payouts row.id now db))
      then rate_limited (
          retry_seconds
            (min_or now (λ p. p.created_at) (recent_payouts row.id now db) + day_ms - now))
      else authorized row satoshis
]

-- `requestedSats !== undefined && requestedSats !== MN_COLLATERAL_SATS`
abbrev pub not_collateral : Option ℕ → Bool
not_collateral requested = elim requested [ none ↦ false | some n ↦ not (n == mn_collateral_sats) ]

unfoldable pub settle_amount : FaucetConfig → ApiKeyRow → KeyTier → Option ℕ → ℕ → Db → KeyDecision
unfolding limit_per_day
settle_amount cfg row mn requested now db =
    if not_collateral requested
    then amount_not_collateral
    else limit_per_day row mn_collateral_sats now db
settle_amount cfg row trusted requested now db =
    if ltb cfg.api_keys.max_per_request_sats (or_else requested cfg.payout_sats)
    then amount_too_large
    else limit_per_day row (or_else requested cfg.payout_sats) now db

-- `authorizeKeyPayout`
unfoldable pub authorize_key_payout : FaucetConfig → String → Option ℕ → ℕ → Db → KeyDecision
unfolding settle_amount
authorize_key_payout cfg hash requested now db = elim (find (has_hash hash) db.api_keys) [
  | none ↦ unauthorized
  | some row ↦
      if not cfg.api_keys.enabled || not (is_live now row)
      then unauthorized
      else settle_amount cfg row row.tier requested now db
]

abbrev pub used_once : ℕ → ℕ → ApiKeyRow → ApiKeyRow
used_once now satoshis r = record r {
  last_used_at = some now;
  payouts = r.payouts + 1;
  paid_sats = r.paid_sats + satoshis;
}

-- `recordKeyPayout`
unfoldable pub record_key_payout : ApiKeyRow → String → String → ℕ → ℕ → Db → Db
record_key_payout key txid address satoshis now db = record db {
  key_payouts =
      db.key_payouts
      ++ record {
        key_id = key.id;
        txid = txid;
        address = address;
        satoshis = satoshis;
        created_at = now;
      }
        ∷ [];
  api_keys = update_where (has_hash key.hash) (used_once now satoshis) db.api_keys;
}

-- `MintKeyInput` with the random token's hash and id; `per_day` undefined takes the default.
pub record MintKeyInput : Type 0 where
  pub hash : String
  pub id : String
  pub label : String
  pub tier : KeyTier
  pub per_day : Option (Option ℕ)
  pub owner : Option String
  pub expires_at : Option ℕ
  pub created_by : Option String

-- `DEFAULT_PER_DAY` of src/apikeys.ts
abbrev pub default_per_day : KeyTier → Option ℕ
default_per_day trusted = none
default_per_day mn = some 1

abbrev pub minted_row : MintKeyInput → ℕ → ApiKeyRow
minted_row input now = record {
  hash = input.hash;
  id = input.id;
  label = input.label;
  tier = input.tier;
  per_day = or_else input.per_day (default_per_day input.tier);
  created_at = now;
  revoked_at = none;
  last_used_at = none;
  payouts = 0;
  paid_sats = 0;
  owner = input.owner;
  expires_at = input.expires_at;
  created_by = elim (input.created_by) [ none ↦ input.owner | some by ↦ some by ];
  revoked_by = none;
}

-- `mintKey`
unfoldable pub mint_key : MintKeyInput → ℕ → Db → Db
mint_key input now db = record db { api_keys = db.api_keys ++ minted_row input now ∷ [] }

abbrev pub has_id : String → ApiKeyRow → Bool
has_id id r = same r.id id

abbrev pub owned_by : String → ApiKeyRow → Bool
owned_by who r = elim (r.owner) [ none ↦ false | some o ↦ same o who ]

-- `? IS NULL OR owner = ?`
abbrev pub is_theirs : Option String → ApiKeyRow → Bool
is_theirs who r = elim who [ none ↦ true | some w ↦ owned_by w r ]

abbrev pub revoked : ℕ → Option String → ApiKeyRow → ApiKeyRow
revoked now by r = record r { revoked_at = some now; revoked_by = by }

abbrev pub revocable : String → Option String → ApiKeyRow → Bool
revocable id owner r = has_id id r && (is_null r.revoked_at && is_theirs owner r)

-- `revokeApiKey`: whether a row was written.
unfoldable pub revoke_api_key : String → Option String → Option String → ℕ → Db → Db × Bool
revoke_api_key id owner by now db = (
  record db {
    api_keys =
        update_where (revocable id owner) (revoked now (elim by [ none ↦ owner | some b ↦ some b ]))
          db.api_keys;
  },
  any (revocable id owner) db.api_keys,
)

-- The input of `issueOwnKey`, with the new token's hash and id.
pub record IssueInput : Type 0 where
  pub who : String
  pub label : Option String
  pub max_active : ℕ
  pub ttl_ms : ℕ
  pub replacing : Option String
  pub hash : String
  pub id : String

pub data Issued : Type 0 where
  issued at_limit not_found : Issued

abbrev pub live_of : String → ℕ → ApiKeyRow → Bool
live_of who now r = owned_by who r && is_live now r

abbrev pub own_key : IssueInput → String → ℕ → MintKeyInput
own_key input label now = record {
  hash = input.hash;
  id = input.id;
  label = label;
  tier = trusted;
  per_day = some none;
  owner = some input.who;
  expires_at = if ltb 0 input.ttl_ms then some (now + input.ttl_ms) else none;
  created_by = none;
}

abbrev pub replaceable : String → String → ℕ → ApiKeyRow → Bool
replaceable id who now r = has_id id r && live_of who now r

unfoldable pub rotate_key : IssueInput → String → ℕ → Db → Db × Issued
unfolding mint_key
rotate_key input old now db = elim (find (replaceable old input.who now) db.api_keys) [
  | none ↦ (db, not_found)
  | some row ↦ (
    mint_key (own_key input row.label now) now record db {
      api_keys = update_where (has_id old) (revoked now (some input.who)) db.api_keys;
    },
    issued,
  )
]

unfoldable pub issue_new_key : IssueInput → ℕ → Db → Db × Issued
unfolding mint_key
issue_new_key input now db =
    if leb input.max_active (count_where (live_of input.who now) db.api_keys)
    then (db, at_limit)
    else (mint_key (own_key input (or_else input.label "API key") now) now db, issued)

-- `issueOwnKey`
unfoldable pub issue_own_key : IssueInput → ℕ → Db → Db × Issued
unfolding rotate_key issue_new_key
issue_own_key input now db = elim (input.replacing) [
  | none ↦ issue_new_key input now db
  | some old ↦ rotate_key input old now db
]
