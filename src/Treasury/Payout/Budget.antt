-- ===== src/Treasury/Payout/Budget.antt =====
-- The ledger of the daily budget: what the row of a day reads after a deletion and an addition.
use dash_faucet_cf.Base.{
  subst, equal→path, ℕ, ◌+◌, ◌≤◌, ◌<◌, ◌≡◌, refl, inl, inr, true, false, none, some, List, [], ◌∷◌,
  ◌++◌, arith, Bool-cases, if◌then◌else◌, leb, ◌==◌, find, any, filter,
}
use dash_faucet_cf.Db.{BudgetRow}
use dash_faucet_cf.Db.Sql.{update_where}
use dash_faucet_cf.Treasury.Ledger.{budget_of}
use dash_faucet_cf.Treasury.Payout.{add_budget}

abbrev pub spent_in : ℕ → List BudgetRow → ℕ
spent_in day rows = elim (find (budget_of day) rows) [ none ↦ 0 | some r ↦ r.satoshis ]

abbrev pub recent_rows : ℕ → List BudgetRow → List BudgetRow
recent_rows today rows = filter (λ r. leb today (r.day + 7)) rows

pub spent_in-old :
    (day today : ℕ) (rows : List BudgetRow)
    → day + 7 < today
    → spent_in day (recent_rows today rows) ≡ 0
spent_in-old day today [] old = refl
spent_in-old day today (r ∷ rows) old = ground (arith, spent_in-old day today rows old)

pub spent_in-recent :
    (day today : ℕ) (rows : List BudgetRow)
    → today ≤ day + 7
    → spent_in day (recent_rows today rows) ≡ spent_in day rows
spent_in-recent day today [] recent = refl
spent_in-recent day today (r ∷ rows) recent = ground (arith, spent_in-recent day today rows recent)

spent_in-update :
    (day satoshis : ℕ) (rows : List BudgetRow)
    → any (budget_of day) rows ≡ true
    → spent_in day
        (update_where (budget_of day) (λ r. record r { satoshis = r.satoshis + satoshis }) rows)
      ≡ spent_in day rows + satoshis
spent_in-update day satoshis [] found = absurd (cc)
spent_in-update day satoshis (r ∷ rows) found = ground (arith, spent_in-update day satoshis rows)

spent_in-append :
    (day satoshis : ℕ) (rows : List BudgetRow)
    → any (budget_of day) rows ≡ false
    → spent_in day (rows ++ record { day = day; satoshis = satoshis } ∷ [])
      ≡ spent_in day rows + satoshis
spent_in-append day satoshis [] unknown = ground arith
spent_in-append day satoshis (r ∷ rows) unknown = ground (arith, spent_in-append day satoshis rows)

pub spent_in-add_budget :
    (day satoshis : ℕ) (rows : List BudgetRow)
    → spent_in day (add_budget day satoshis rows) ≡ spent_in day rows + satoshis
unfolding add_budget
spent_in-add_budget day satoshis rows = elim (Bool-cases (any (budget_of day) rows)) [
  | inl found ↦ rw found (spent_in-update day satoshis rows found)
  | inr unknown ↦ rw unknown (spent_in-append day satoshis rows unknown)
]

spent_in-update_other :
    (day other satoshis : ℕ) (rows : List BudgetRow)
    → (other == day) ≡ false
    → spent_in other
        (update_where (budget_of day) (λ r. record r { satoshis = r.satoshis + satoshis }) rows)
      ≡ spent_in other rows
spent_in-update_other day other satoshis [] differs = refl
spent_in-update_other day other satoshis (r ∷ rows) differs =
    ground (arith, spent_in-update_other day other satoshis rows differs)

spent_in-append_other :
    (day other satoshis : ℕ) (rows : List BudgetRow)
    → (other == day) ≡ false
    → spent_in other (rows ++ record { day = day; satoshis = satoshis } ∷ []) ≡ spent_in other rows
spent_in-append_other day other satoshis [] differs = ground arith
spent_in-append_other day other satoshis (r ∷ rows) differs =
    ground (arith, spent_in-append_other day other satoshis rows differs)

pub spent_in-add_budget_other :
    (day other satoshis : ℕ) (rows : List BudgetRow)
    → (other == day) ≡ false
    → spent_in other (add_budget day satoshis rows) ≡ spent_in other rows
unfolding add_budget
spent_in-add_budget_other day other satoshis rows differs =
    elim (Bool-cases (any (budget_of day) rows)) [
      | inl found ↦ rw found (spent_in-update_other day other satoshis rows differs)
      | inr unknown ↦ rw unknown (spent_in-append_other day other satoshis rows differs)
    ]

pub spent_in-add_budget_any :
    (today day satoshis : ℕ) (rows : List BudgetRow)
    → spent_in day (add_budget today satoshis rows)
      ≡ spent_in day rows + (if today == day then satoshis else 0)
spent_in-add_budget_any today day satoshis rows = elim (Bool-cases (today == day)) [
  | inl same_day ↦ rw same_day (
      subst (λ d. spent_in d (add_budget today satoshis rows) ≡ spent_in d rows + satoshis)
        (equal→path today day same_day) (spent_in-add_budget today satoshis rows))
  | inr other ↦
      rw other (ground (arith, spent_in-add_budget_other today day satoshis rows (ground arith)))
]
