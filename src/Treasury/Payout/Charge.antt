-- ===== src/Treasury/Payout/Charge.antt =====
-- A charge depends on the books alone.
use dash_faucet_cf.Base.{ℕ, ◌≡◌, refl, sym, ap, ◌∙◌}
use dash_faucet_cf.Db.{Db, empty_db}
use dash_faucet_cf.Tx.{BuiltTx}
use dash_faucet_cf.Treasury.Admission.{PayoutRequest, Payer, public_faucet, by_key, by_code}
use dash_faucet_cf.Treasury.Books.{Books, books}
use dash_faucet_cf.Treasury.Payout.{charge}

-- Tables with the given books and nothing else.
abbrev only_books : Books → Db
only_books b = record empty_db {
  claims = b.claims;
  ip_hits = b.ip_hits;
  budget = b.budget;
  api_keys = b.api_keys;
  key_payouts = b.key_payouts;
  codes = b.codes;
  code_redemptions = b.code_redemptions;
  used_cap = b.used_cap;
  inventory = b.inventory;
  invitation_hits = b.invitation_hits;
}

module _ (payer : Payer) (input : PayoutRequest) (built : BuiltTx) (satoshis now : ℕ) where
  -- A charge reads and writes the books alone.
  charge-only_books :
      (db : Db)
      → books (charge payer input built satoshis now db)
        ≡ books (charge payer input built satoshis now (only_books (books db)))
  unfolding charge
  charge-only_books db =
      elim payer
        as (λ p.
          books (charge p input built satoshis now db)
          ≡ books (charge p input built satoshis now (only_books (books db)))) [
            | public_faucet ↦ refl
            | by_key key ↦ refl
            | by_code code ↦ refl
          ]

  pub charge-books :
      (db db' : Db)
      → books db ≡ books db'
      → books (charge payer input built satoshis now db)
        ≡ books (charge payer input built satoshis now db')
  charge-books db db' e =
      charge-only_books db
      ∙ ap (λ b. books (charge payer input built satoshis now (only_books b))) e
      ∙ sym (charge-only_books db')
