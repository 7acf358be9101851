-- ===== src/Treasury/Payout/Claims.antt =====
-- The claims of the public faucet against the ledger of its daily budget.
use dash_faucet_cf.Base.{
  ℕ, ◌+◌, ◌*◌, ◌≤◌, ◌≡◌, refl, sym, ◌∙◌, inl, inr, none, List, [], ◌∷◌, arith, Bool-cases,
  if◌then◌else◌, leb, ◌==◌, find, filter, total, All, All-filter, All-append, total-append,
}
use dash_faucet_cf.Config.{FaucetConfig}
use dash_faucet_cf.Db.{Db, Claim, BudgetRow, utc_day, day_ms}
use dash_faucet_cf.Db.Sql.{delete_where-none}
use dash_faucet_cf.Tx.{BuiltTx}
use dash_faucet_cf.Treasury.{World}
use dash_faucet_cf.Treasury.Ledger.{spent_today, prune}
use dash_faucet_cf.Treasury.Admission.{
  PayoutRequest, Payer, public_faucet, by_key, by_code, admit, admission, claim_of,
}
use dash_faucet_cf.Treasury.Keys.{record_key_payout}
use dash_faucet_cf.Accounts.{record_redemption}
use dash_faucet_cf.Treasury.Payout.{claim_made, charge, record_claim, payout_locked}
use dash_faucet_cf.Treasury.Payout.Admit.{admission-IsEntitled}
use dash_faucet_cf.Treasury.Payout.Entitled.{IsEntitled}
use dash_faucet_cf.Treasury.Payout.Commit.{payout_locked-books}
use dash_faucet_cf.Treasury.Payout.Budget.{spent_in, spent_in-recent, spent_in-add_budget_any}

-- What the claim counts for on the day.
abbrev pub amount_on : ℕ → Claim → ℕ
amount_on day c = if c.day == day then c.satoshis else 0

-- The claim bears the day on which it was written.
abbrev pub IsDated : Claim → Type 0
IsDated c = c.day ≡ utc_day c.created_at

abbrev Balances : ℕ → List Claim → List BudgetRow → Type 0
Balances day claims rows = All IsDated claims × (total (amount_on day) claims ≡ spent_in day rows)

abbrev kept_claims : ℕ → List Claim → List Claim
kept_claims now claims = filter (λ r. leb now (r.created_at + 7 * day_ms)) claims

kept_claims-total :
    (day now : ℕ) (claims : List Claim)
    → All IsDated claims
    → utc_day now ≤ day + 6
    → total (amount_on day) (kept_claims now claims) ≡ total (amount_on day) claims
kept_claims-total day now [] dated recent = refl
kept_claims-total day now (c ∷ claims) (dated, rest) recent =
    elim (Bool-cases (leb now (c.created_at + 7 * day_ms))) [
      | inl kept ↦ ground (arith, kept_claims-total day now claims rest recent)
      | inr gone ↦ ground (arith, kept_claims-total day now claims rest recent)
    ]

prune-Balances :
    (cfg : FaucetConfig) (day now : ℕ) (db : Db)
    → utc_day now ≤ day + 6
    → Balances day db.claims db.budget
    → Balances day (prune cfg now db).claims (prune cfg now db).budget
unfolding prune
prune-Balances cfg day now db recent (dated, equal) = (
  All-filter IsDated (λ r. leb now (r.created_at + 7 * day_ms)) db.claims dated,
  kept_claims-total day now db.claims dated recent
      ∙ equal
      ∙ sym (spent_in-recent day (utc_day now) db.budget (omega (arith, recent))),
)

charge-Balances :
    (payer : Payer) (input : PayoutRequest) (built : BuiltTx) (satoshis day now : ℕ) (db : Db)
    → (payer ≡ public_faucet → find (claim_of input.address (utc_day now)) db.claims ≡ none)
    → Balances day db.claims db.budget
    → Balances day
        (charge payer input built satoshis now db).claims
        (charge payer input built satoshis now db).budget
unfolding charge record_claim record_key_payout record_redemption
charge-Balances (by_key key) input built satoshis day now db fresh h = h
charge-Balances (by_code code) input built satoshis day now db fresh h = h
charge-Balances public_faucet input built satoshis day now db fresh (dated, equal) =
    rw (delete_where-none (claim_of input.address (utc_day now)) db.claims (fresh refl)) (
      All-append IsDated db.claims _ dated (refl, tt),
      omega (
        arith,
        total-append (amount_on day) db.claims (claim_made input built satoshis now ∷ []),
        equal,
        spent_in-add_budget_any (utc_day now) day satoshis db.budget,
      ),
    )

-- Where every claim bears the day on which it was written and the budget's row of a day equals the
-- total of that day's claims, both hold after a payout, if the day is at most six days past.
pub payout_locked-Balances :
    (cfg : FaucetConfig) (w : World) (input : PayoutRequest) (db : Db) (day : ℕ)
    → utc_day w.now ≤ day + 6
    → All IsDated db.claims
    → total (amount_on day) db.claims ≡ spent_today day db
    → All IsDated (payout_locked cfg w input db).0.claims
      × (total (amount_on day) (payout_locked cfg w input db).0.claims
          ≡ spent_today day (payout_locked cfg w input db).0)
unfolding spent_today
payout_locked-Balances cfg w input db day recent dated equal =
    payout_locked-books (λ b. Balances day b.claims b.budget) cfg w input db pruned charged
  where
    pruned : Balances day (prune cfg w.now db).claims (prune cfg w.now db).budget
    pruned = prune-Balances cfg day w.now db recent (dated, equal)

    fresh :
        (payer : Payer) (satoshis : ℕ)
        → IsEntitled cfg input w.now (prune cfg w.now db) payer satoshis
        → payer ≡ public_faucet
        → find (claim_of input.address (utc_day w.now)) (prune cfg w.now db).claims ≡ none
    fresh public_faucet satoshis (amount, unclaimed, below, fits) e = unclaimed
    fresh (by_key key) satoshis entitled e = absurd (cc)
    fresh (by_code code) satoshis entitled e = absurd (cc)

    charged :
        (payer : Payer) (satoshis : ℕ) (built : BuiltTx)
        → admission cfg input w.now (prune cfg w.now db) ≡ admit payer satoshis
        → Balances day
            (charge payer input built satoshis w.now (prune cfg w.now db)).claims
            (charge payer input built satoshis w.now (prune cfg w.now db)).budget
    charged payer satoshis built e =
        charge-Balances payer input built satoshis day w.now (prune cfg w.now db)
          (fresh payer satoshis
            (admission-IsEntitled cfg input w.now (prune cfg w.now db) payer satoshis e))
          pruned
