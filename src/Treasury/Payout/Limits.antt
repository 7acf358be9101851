-- ===== src/Treasury/Payout/Limits.antt =====
-- The daily budget and the claims of a day, over the payouts of `payoutLocked`.
use dash_faucet_cf.Base.{
  subst, equal→path, ℕ, ◌+◌, ◌≤◌, ◌≡◌, sym, inl, inr, List, arith, Bool-cases, leb, ◌==◌,
}
use dash_faucet_cf.Config.{FaucetConfig}
use dash_faucet_cf.Db.{Db, BudgetRow, utc_day}
use dash_faucet_cf.Tx.{BuiltTx}
use dash_faucet_cf.Treasury.{World}
use dash_faucet_cf.Treasury.Ledger.{spent_today, prune}
use dash_faucet_cf.Treasury.Admission.{
  PayoutRequest, Payer, public_faucet, by_key, by_code, admit, admission,
}
use dash_faucet_cf.Treasury.Keys.{record_key_payout}
use dash_faucet_cf.Accounts.{record_redemption}
use dash_faucet_cf.Treasury.Payout.{charge, add_budget, record_claim, payout_locked}
use dash_faucet_cf.Treasury.Payout.Admit.{admission-IsEntitled}
use dash_faucet_cf.Treasury.Payout.Commit.{payout_locked-books}
use dash_faucet_cf.Treasury.Payout.Budget.{
  spent_in, recent_rows, spent_in-old, spent_in-recent, spent_in-add_budget,
  spent_in-add_budget_other,
}

-- No day's budget row exceeds the daily budget.
abbrev pub IsWithinBudget : FaucetConfig → Db → Type 0
IsWithinBudget cfg db = (day : ℕ) → spent_today day db ≤ cfg.daily_budget_sats

abbrev IsWithin : FaucetConfig → List BudgetRow → Type 0
IsWithin cfg rows = (day : ℕ) → spent_in day rows ≤ cfg.daily_budget_sats

recent_rows-IsWithin :
    (cfg : FaucetConfig) (today : ℕ) (rows : List BudgetRow)
    → IsWithin cfg rows
    → IsWithin cfg (recent_rows today rows)
recent_rows-IsWithin cfg today rows h day = elim (Bool-cases (leb today (day + 7))) [
  | inl recent ↦ ground (arith, spent_in-recent day today rows, h day)
  | inr old ↦ ground (arith, spent_in-old day today rows)
]

add_budget-IsWithin :
    (cfg : FaucetConfig) (today satoshis : ℕ) (rows : List BudgetRow)
    → IsWithin cfg rows
    → spent_in today rows + satoshis ≤ cfg.daily_budget_sats
    → IsWithin cfg (add_budget today satoshis rows)
add_budget-IsWithin cfg today satoshis rows h fits day = elim (Bool-cases (day == today)) [
  | inl same_day ↦
      subst (λ d. spent_in d (add_budget today satoshis rows) ≤ cfg.daily_budget_sats)
        (sym (equal→path day today same_day))
        (ground (arith, spent_in-add_budget today satoshis rows))
  | inr other ↦ ground (arith, spent_in-add_budget_other today day satoshis rows, h day)
]

-- Where no day's budget row exceeds the daily budget, none does after a payout, whoever pays.
pub payout_locked-IsWithinBudget :
    (cfg : FaucetConfig) (w : World) (input : PayoutRequest) (db : Db)
    → IsWithinBudget cfg db
    → IsWithinBudget cfg (payout_locked cfg w input db).0
unfolding prune charge record_claim spent_today record_key_payout record_redemption
payout_locked-IsWithinBudget cfg w input db h =
    payout_locked-books (λ b. IsWithin cfg b.budget) cfg w input db pruned charged
  where
    pruned : IsWithin cfg (prune cfg w.now db).budget
    pruned = recent_rows-IsWithin cfg (utc_day w.now) db.budget h

    charged :
        (payer : Payer) (satoshis : ℕ) (built : BuiltTx)
        → admission cfg input w.now (prune cfg w.now db) ≡ admit payer satoshis
        → IsWithin cfg (charge payer input built satoshis w.now (prune cfg w.now db)).budget
    charged public_faucet satoshis built e =
        let (amount, fresh, below, fits) =
          admission-IsEntitled cfg input w.now (prune cfg w.now db) public_faucet satoshis e in
        add_budget-IsWithin cfg (utc_day w.now) satoshis (prune cfg w.now db).budget pruned fits
    charged (by_key key) satoshis built e = pruned
    charged (by_code code) satoshis built e = pruned
