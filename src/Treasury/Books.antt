-- ===== src/Treasury/Books.antt =====
-- The ledgers of who was paid what, apart from the coins. The handling of coins leaves them alone.
use dash_faucet_cf.Base.{
  ℕ, ◌≡◌, refl, ◌∙◌, String, Bool, Option, none, some, List, [], ◌∷◌, arith, Option-cases, inl, inr,
}
use dash_faucet_cf.Config.{FaucetConfig}
use dash_faucet_cf.Db.{
  Db, Claim, IpHit, BudgetRow, ApiKeyRow, KeyPayout, CodeRow, Redemption, UsedCap, InvitationRow,
  InvitationHit,
}
use dash_faucet_cf.Tx.{Utxo, BuiltTx}
use dash_faucet_cf.Treasury.{World, Network, Snapshot}
use dash_faucet_cf.Treasury.Ledger.{
  settle_row, settle_rows, reconcile, record_verdict, classify, classify_young, young_txids,
  unclassified, spendable_after, spendable_utxos, lock_inputs, record_spend,
}
use dash_faucet_cf.Treasury.Broadcast.{
  settle_rejected, settle_silent, settle_again, settle_broadcast,
}
use dash_faucet_cf.Treasury.Merging.{schedule_maintenance}

pub record Books : Type 0 where
  pub claims : List Claim
  pub ip_hits : List IpHit
  pub budget : List BudgetRow
  pub api_keys : List ApiKeyRow
  pub key_payouts : List KeyPayout
  pub codes : List CodeRow
  pub code_redemptions : List Redemption
  pub used_cap : List UsedCap
  pub inventory : List InvitationRow
  pub invitation_hits : List InvitationHit

abbrev pub books : Db → Books
books db = record {
  claims = db.claims;
  ip_hits = db.ip_hits;
  budget = db.budget;
  api_keys = db.api_keys;
  key_payouts = db.key_payouts;
  codes = db.codes;
  code_redemptions = db.code_redemptions;
  used_cap = db.used_cap;
  inventory = db.inventory;
  invitation_hits = db.invitation_hits;
}

settle_row-books :
    (confirmed : List Utxo) (now : ℕ) (row : _) (db : Db)
    → books (settle_row confirmed now row db) ≡ books db
unfolding settle_row
settle_row-books confirmed now row db = ground arith

settle_rows-books :
    (confirmed : List Utxo) (now : ℕ) (rows : List _) (db : Db)
    → books (settle_rows confirmed now rows db) ≡ books db
unfolding settle_rows
settle_rows-books confirmed now [] db = refl
settle_rows-books confirmed now (row ∷ rows) db =
    settle_rows-books confirmed now rows (settle_row confirmed now row db)
    ∙ settle_row-books confirmed now row db

pub reconcile-books :
    (confirmed : List Utxo) (now : ℕ) (db : Db) → books (reconcile confirmed now db) ≡ books db
unfolding reconcile
reconcile-books confirmed now db = settle_rows-books confirmed now db.spent db

classify-books :
    (look : String → Option Bool) (now : ℕ) (ts : List String) (db : Db)
    → books (classify look now ts db) ≡ books db
unfolding classify
classify-books look now [] db = refl
classify-books look now (t ∷ ts) db = elim (Option-cases (look t)) [
  | inl silent ↦ rw (silent, classify) (classify-books look now ts db)
  | inr (v, answered) ↦
      rw (answered, classify) (classify-books look now ts (record_verdict t v now db))
]

classify_young-books :
    (net : Network) (snapshot : Snapshot) (now : ℕ) (db : Db)
    → books (classify_young net snapshot now db) ≡ books db
unfolding classify_young
classify_young-books net snapshot now db =
    classify-books net.is_coinbase now (unclassified (young_txids snapshot) db) db

pub spendable_utxos-books :
    (net : Network) (script : String) (now : ℕ) (db : Db)
    → books (spendable_utxos net script now db).0 ≡ books db
unfolding spendable_utxos
spendable_utxos-books net script now db = after net.utxos
  where
    after : (o : Option Snapshot) → books (spendable_after net script now db o).0 ≡ books db
    after none = refl
    after (some snapshot) =
        reconcile-books snapshot.utxos now (classify_young net snapshot now db)
        ∙ classify_young-books net snapshot now db

pub record_spend-books :
    (built : BuiltTx) (now : ℕ) (db : Db) → books (record_spend built now db) ≡ books db
unfolding record_spend
record_spend-books built now db = refl

pub lock_inputs-books :
    (built : BuiltTx) (now : ℕ) (db : Db) → books (lock_inputs built now db) ≡ books db
unfolding lock_inputs
lock_inputs-books built now db = refl

pub settle_broadcast-books :
    (net : Network) (built : BuiltTx) (now : ℕ) (db : Db)
    → books (settle_broadcast net built now db).0 ≡ books db
unfolding settle_broadcast settle_again settle_silent settle_rejected
settle_broadcast-books net built now db = ground (arith, lock_inputs-books built now db)

pub schedule_maintenance-books :
    (cfg : FaucetConfig) (w : World) (delay : ℕ) (db : Db)
    → books (schedule_maintenance cfg w delay db) ≡ books db
unfolding schedule_maintenance
schedule_maintenance-books cfg w delay db = ground arith
