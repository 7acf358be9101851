-- ===== src/Treasury/Payout/Admit.antt =====
-- Whom the checks of `payoutLocked` let through: what a payer must satisfy to be admitted.
use dash_faucet_cf.Base.{
  leb_false→lt, ◌-◌, subst, ℕ, ◌+◌, ◌<◌, ◌≡◌, refl, sym, inl, inr, String, Bool, true, false, ◌||◌,
  not, Option, none, some, arith, Bool-cases, Option-cases, if◌then◌else◌, ltb, leb, length, find,
  any,
}
use dash_faucet_cf.Config.{FaucetConfig, soft, mn_collateral_sats}
use dash_faucet_cf.Db.{Db, ApiKeyRow, KeyTier, trusted, mn, day_ms, utc_day}
use dash_faucet_cf.Db.Sql.{min_or, retry_seconds}
use dash_faucet_cf.Treasury.Ledger.{spent_today}
use dash_faucet_cf.Treasury.Keys.{
  KeyDecision, authorized, unauthorized, amount_not_collateral, amount_too_large, rate_limited,
  authorize_key_payout, settle_amount, limit_per_day, recent_payouts, has_hash, is_live,
  not_collateral,
}
use dash_faucet_cf.Accounts.{check_code, check_row, has_code_key, has_expired, redeemed_by, or_else}
use dash_faucet_cf.Treasury.Admission.{
  PayoutRequest, Payer, Admission, refuse, admit, admission, admit_public, admit_ip, admit_budget,
  admit_key, admit_code, claim_of, recent_hits, code_invalid,
}
use dash_faucet_cf.Treasury.Payout.Entitled.{IsBelowLimit, IsAmountOf, IsEntitledKey, IsEntitled}

abbrev IsOpenTo : FaucetConfig → PayoutRequest → ℕ → Db → Admission → Type 0
IsOpenTo cfg input now db (refuse r) = Unit
IsOpenTo cfg input now db (admit payer satoshis) = IsEntitled cfg input now db payer satoshis

abbrev IsKeyOpen : FaucetConfig → String → ℕ → Db → KeyDecision → Type 0
IsKeyOpen cfg hash now db (authorized key satoshis) = IsEntitledKey cfg hash now db key satoshis
IsKeyOpen cfg hash now db _ = Unit

module _ (cfg : FaucetConfig) (input : PayoutRequest) (now : ℕ) (db : Db) where
  admit_budget-IsOpenTo :
      find (claim_of input.address (utc_day now)) db.claims ≡ none
      → length (recent_hits input.ip now db) < cfg.rate_limits (or_else input.tier soft)
      → IsOpenTo cfg input now db (admit_budget cfg now db)
  unfolding admit_budget
  admit_budget-IsOpenTo fresh below =
      elim (Bool-cases
        (ltb cfg.daily_budget_sats (spent_today (utc_day now) db + cfg.payout_sats))) [
          | inl over ↦ rw over tt
          | inr within ↦ rw within (refl, fresh, below, ground arith)
        ]

  admit_ip-IsOpenTo :
      find (claim_of input.address (utc_day now)) db.claims ≡ none
      → IsOpenTo cfg input now db (admit_ip cfg input now db)
  unfolding admit_ip
  admit_ip-IsOpenTo fresh =
      elim (Bool-cases
        (leb (cfg.rate_limits (or_else input.tier soft)) (length (recent_hits input.ip now db)))) [
          | inl over ↦ rw over tt
          | inr below ↦ rw below (admit_budget-IsOpenTo fresh (ground arith))
        ]

  admit_public-IsOpenTo : IsOpenTo cfg input now db (admit_public cfg input now db)
  unfolding admit_public
  admit_public-IsOpenTo =
      elim (Option-cases (find (claim_of input.address (utc_day now)) db.claims)) [
        | inl fresh ↦ rw (fresh, admit_public) (admit_ip-IsOpenTo fresh)
        | inr (prior, claimed) ↦ rw (claimed, admit_public) tt
      ]

module _ (cfg : FaucetConfig) (hash : String) (now : ℕ) (db : Db) (key : ApiKeyRow) where
  limit_per_day-IsKeyOpen :
      (satoshis : ℕ)
      → find (has_hash hash) db.api_keys ≡ some key
      → cfg.api_keys.enabled ≡ true
      → is_live now key ≡ true
      → IsAmountOf cfg key.tier satoshis
      → IsKeyOpen cfg hash now db (limit_per_day key satoshis now db)
  unfolding limit_per_day
  limit_per_day-IsKeyOpen satoshis found enabled live amount = go key.per_day refl
    where
      recent : ℕ
      recent = length (recent_payouts key.id now db)

      left :
          (b : Bool) (limit seconds : ℕ)
          → leb limit recent ≡ b
          → key.per_day ≡ some limit
          → IsKeyOpen cfg hash now db (if b then rate_limited seconds else authorized key satoshis)
      left true limit seconds over limited = tt
      left false limit seconds below limited = (
        found,
        enabled,
        live,
        amount,
        subst (IsBelowLimit recent) (sym limited) (leb_false→lt limit recent below),
      )

      go :
          (per_day : Option ℕ)
          → key.per_day ≡ per_day
          → IsKeyOpen cfg hash now db (elim per_day [
            | none ↦ authorized key satoshis
            | some limit ↦
                if leb limit recent
                then rate_limited (
                    retry_seconds (
                      min_or now (λ p. p.created_at) (recent_payouts key.id now db) + day_ms - now))
                else authorized key satoshis
          ])
      go none unlimited =
          (found, enabled, live, amount, subst (IsBelowLimit recent) (sym unlimited) tt)
      go (some limit) limited = left (leb limit recent) limit _ refl limited

  settle_amount-IsKeyOpen :
      (tier : KeyTier) (requested : Option ℕ)
      → key.tier ≡ tier
      → find (has_hash hash) db.api_keys ≡ some key
      → cfg.api_keys.enabled ≡ true
      → is_live now key ≡ true
      → IsKeyOpen cfg hash now db (settle_amount cfg key tier requested now db)
  unfolding settle_amount
  settle_amount-IsKeyOpen mn requested tier found enabled live =
      elim (Bool-cases (not_collateral requested)) [
        | inl other ↦ rw other tt
        | inr fine ↦ rw fine (
            limit_per_day-IsKeyOpen mn_collateral_sats found enabled live
              (subst (λ t. IsAmountOf cfg t mn_collateral_sats) (sym tier) refl))
      ]
  settle_amount-IsKeyOpen trusted requested tier found enabled live =
      elim (Bool-cases
        (ltb cfg.api_keys.max_per_request_sats (or_else requested cfg.payout_sats))) [
          | inl over ↦ rw over tt
          | inr fine ↦ rw fine (
              limit_per_day-IsKeyOpen (or_else requested cfg.payout_sats) found enabled live (
                subst (λ t. IsAmountOf cfg t (or_else requested cfg.payout_sats)) (sym tier)
                  (ground arith)))
        ]

authorize_key_payout-IsKeyOpen :
    (cfg : FaucetConfig) (hash : String) (requested : Option ℕ) (now : ℕ) (db : Db)
    → IsKeyOpen cfg hash now db (authorize_key_payout cfg hash requested now db)
unfolding authorize_key_payout
authorize_key_payout-IsKeyOpen cfg hash requested now db =
    elim (Option-cases (find (has_hash hash) db.api_keys)) [
      | inl unknown ↦ rw (unknown, authorize_key_payout) tt
      | inr (row, found) ↦ elim (Bool-cases (not cfg.api_keys.enabled || not (is_live now row))) [
        | inl shut ↦ rw (found, authorize_key_payout, shut) tt
        | inr usable ↦
            rw (found, authorize_key_payout, usable)
              (settle_amount-IsKeyOpen cfg hash now db row row.tier requested refl found
                (ground arith) (ground arith))
      ]
    ]

check_code-IsOpenTo :
    (cfg : FaucetConfig) (input : PayoutRequest) (code_key : String) (now : ℕ) (db : Db)
    → input.code_key ≡ some code_key
    → IsOpenTo cfg input now db (admit_code (check_code db code_key input.address now))
unfolding check_code check_row
check_code-IsOpenTo cfg input code_key now db e =
    elim (Option-cases (find (has_code_key code_key) db.codes)) [
      | inl unknown ↦ rw (unknown, check_code) tt
      | inr (row, found) ↦
          elim (Bool-cases (
            row.disabled
            || (has_expired row.expires_at now || leb row.max_redemptions row.redemptions))) [
              | inl shut ↦ rw (found, check_code, shut) tt
              | inr usable ↦
                  elim (Bool-cases (any (redeemed_by row.id input.address) db.code_redemptions)) [
                    | inl before ↦ rw (found, check_code, usable, before) tt
                    | inr fresh ↦
                        rw (found, check_code, usable, fresh)
                          (
                            code_key,
                            e,
                            refl,
                            (found, ground arith, ground arith, ground arith, fresh),
                          )
                  ]
            ]
    ]

module _ (cfg : FaucetConfig) (input : PayoutRequest) (now : ℕ) (db : Db) where
  admit_key-IsOpenTo :
      (hash : String) (d : KeyDecision)
      → input.api_key_hash ≡ some hash
      → IsKeyOpen cfg hash now db d
      → IsOpenTo cfg input now db (admit_key d)
  admit_key-IsOpenTo hash (authorized key satoshis) e entitled = (hash, e, entitled)
  admit_key-IsOpenTo hash unauthorized e entitled = tt
  admit_key-IsOpenTo hash amount_not_collateral e entitled = tt
  admit_key-IsOpenTo hash amount_too_large e entitled = tt
  admit_key-IsOpenTo hash (rate_limited seconds) e entitled = tt

  admission-IsOpenTo : IsOpenTo cfg input now db (admission cfg input now db)
  unfolding admission
  admission-IsOpenTo = go input.api_key_hash input.code_key refl refl
    where
      code :
          (enabled : Bool) (k : String)
          → input.code_key ≡ some k
          → IsOpenTo cfg input now db (
              if enabled
              then admit_code (check_code db k input.address now)
              else refuse code_invalid)
      code true k e = check_code-IsOpenTo cfg input k now db e
      code false k e = tt

      go :
          (hash c : Option String)
          → input.api_key_hash ≡ hash
          → input.code_key ≡ c
          → IsOpenTo cfg input now db (elim hash [
            | some x ↦ admit_key (authorize_key_payout cfg x input.requested_sats now db)
            | none ↦ elim c [
              | some k ↦
                  if cfg.api_keys.enabled
                  then admit_code (check_code db k input.address now)
                  else refuse code_invalid
              | none ↦ admit_public cfg input now db
            ]
          ])
      go (some x) c e f =
          admit_key-IsOpenTo x (authorize_key_payout cfg x input.requested_sats now db) e
            (authorize_key_payout-IsKeyOpen cfg x input.requested_sats now db)
      go none (some k) e f = code cfg.api_keys.enabled k f
      go none none e f = admit_public-IsOpenTo cfg input now db

  -- Whoever the checks admit is entitled to the amount: the public faucet pays its fixed amount to
  -- an address without a claim today, from an IP below its tier's limit, within the daily budget;
  -- a live key pays an amount of its tier below its limit per day; and a code that is enabled,
  -- unexpired and not used up pays its own amount once per address.
  pub admission-IsEntitled :
      (payer : Payer) (satoshis : ℕ)
      → admission cfg input now db ≡ admit payer satoshis
      → IsEntitled cfg input now db payer satoshis
  admission-IsEntitled payer satoshis e = subst (IsOpenTo cfg input now db) e admission-IsOpenTo
