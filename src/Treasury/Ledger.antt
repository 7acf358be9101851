-- ===== src/Treasury/Ledger.antt =====
-- The local ledger of coins in flight: `prune`, `reconcile`, `spendableUtxos`, `immatureTxids`,
-- `lockInputs`, `recordSpend` and `spentToday` of src/treasury.ts.
pub mod Locks
pub mod Offered
use dash_faucet_cf.Base.{
  ℕ, ◌+◌, ◌*◌, String, Bool, true, false, ◌&&◌, not, Option, none, some, List, [], ◌∷◌, ◌++◌, map,
  ltb, leb, ◌==◌, same, if◌then◌else◌, filter, find, any, take,
}
use dash_faucet_cf.Config.{FaucetConfig}
use dash_faucet_cf.Db.{Db, SpentRow, PendingRow, BudgetRow, CoinbaseCheck, hour_ms, day_ms, utc_day}
use dash_faucet_cf.Db.Sql.{insert_or_replace, insert_or_ignore, delete_where}
use dash_faucet_cf.Tx.{Utxo, Outpoint, OwnOutput, BuiltTx}
use dash_faucet_cf.Treasury.{Snapshot, Network}

abbrev pub spent_settled_ms : ℕ
spent_settled_ms = 1800000

abbrev pub spent_stale_ms : ℕ
spent_stale_ms = 24 * hour_ms

abbrev pub pending_ttl_ms : ℕ
pending_ttl_ms = hour_ms

abbrev pub merge_demand_ttl_ms : ℕ
merge_demand_ttl_ms = hour_ms

abbrev pub coinbase_maturity : ℕ
coinbase_maturity = 101

abbrev pub max_coinbase_lookups : ℕ
max_coinbase_lookups = 6

-- `prune`: every deletion keeps the rows that are not older than `now` less a limit.
unfoldable pub prune : FaucetConfig → ℕ → Db → Db
prune cfg now db = record db {
  ip_hits = filter (λ r. leb now (r.created_at + hour_ms)) db.ip_hits;
  claims = filter (λ r. leb now (r.created_at + 7 * day_ms)) db.claims;
  budget = filter (λ r. leb (utc_day now) (r.day + 7)) db.budget;
  used_cap = filter (λ r. leb now r.expires_at) db.used_cap;
  coinbase_checks = filter (λ r. leb now (r.checked_at + day_ms)) db.coinbase_checks;
  merge_demand = filter (λ r. leb now (r.created_at + merge_demand_ttl_ms)) db.merge_demand;
  invitation_hits =
      filter (λ r. leb now (r.created_at + cfg.invitations.rate_window_ms)) db.invitation_hits;
  pending = filter (λ r. leb now (r.created_at + pending_ttl_ms)) db.pending;
}

abbrev pub spent_at : String → ℕ → SpentRow → Bool
spent_at txid vout r = same r.txid txid && r.vout == vout

abbrev pub pending_at : String → ℕ → PendingRow → Bool
pending_at txid vout r = same r.txid txid && r.vout == vout

abbrev pub coin_at : String → ℕ → Utxo → Bool
coin_at txid vout u = same u.txid txid && u.output_index == vout

-- `confirmed.has(outpointKey(txid, vout))`
abbrev pub lists : List Utxo → String → ℕ → Bool
lists utxos txid vout = any (coin_at txid vout) utxos

-- `!stillUnspent && age > SPENT_SETTLED_MS`
abbrev pub is_settled : List Utxo → ℕ → SpentRow → Bool
is_settled confirmed now row =
    not (lists confirmed row.txid row.vout) && ltb (row.created_at + spent_settled_ms) now

-- `stillUnspent && age > SPENT_STALE_MS`
abbrev pub is_stale : List Utxo → ℕ → SpentRow → Bool
is_stale confirmed now row =
    lists confirmed row.txid row.vout && ltb (row.created_at + spent_stale_ms) now

-- The body of the first loop of `reconcile`, for one row of `spent`.
unfoldable pub settle_row : List Utxo → ℕ → SpentRow → Db → Db
settle_row confirmed now row db =
    if is_settled confirmed now row
    then record db {
      spent = delete_where (spent_at row.txid row.vout) db.spent;
      pending = delete_where (pending_at row.txid row.vout) db.pending;
    }
    else if is_stale confirmed now row
    then record db { spent = delete_where (spent_at row.txid row.vout) db.spent }
    else db

unfoldable pub settle_rows : List Utxo → ℕ → List SpentRow → Db → Db
settle_rows confirmed now [] db = db
settle_rows confirmed now (row ∷ rows) db =
    settle_rows confirmed now rows (settle_row confirmed now row db)

unfoldable pub reconcile : List Utxo → ℕ → Db → Db
unfolding settle_rows settle_row
reconcile confirmed now db =
    let settled = settle_rows confirmed now db.spent db in
    record settled { pending = delete_where (λ r. lists confirmed r.txid r.vout) settled.pending }

-- `new Map(entries)` and `merged.set(k, u)`: a new value keeps the place of the old one.
unfoldable pub set_coin : Utxo → List Utxo → List Utxo
set_coin u [] = u ∷ []
set_coin u (v ∷ vs) = if coin_at u.txid u.output_index v then u ∷ vs else v ∷ set_coin u vs

unfoldable pub coin_map : List Utxo → List Utxo → List Utxo
unfolding set_coin
coin_map merged [] = merged
coin_map merged (u ∷ us) = coin_map (set_coin u merged) us

-- `DashTx.createPkhScript` gives the script.
abbrev pub in_flight_coin : String → PendingRow → Utxo
in_flight_coin script r = record {
  txid = r.txid;
  output_index = r.vout;
  satoshis = r.satoshis;
  script = script;
  height = none;
}

unfoldable pub add_pending : String → List PendingRow → List Utxo → List Utxo
unfolding set_coin
add_pending script [] merged = merged
add_pending script (r ∷ rows) merged = add_pending script rows (
    if any (coin_at r.txid r.vout) merged
    then merged
    else set_coin (in_flight_coin script r) merged)

-- Coins under `coinbase_maturity` deep, and coins of no known height.
abbrev pub is_young : ℕ → Utxo → Bool
is_young tip u = elim (u.height) [ none ↦ true | some h ↦ ltb (tip + 1) (coinbase_maturity + h) ]

-- The distinct values of a list, in order: `[...new Set(list)]`.
unfoldable pub distinct_from : List String → List String → List String
distinct_from seen [] = seen
distinct_from seen (t ∷ ts) = distinct_from (if any (same t) seen then seen else seen ++ t ∷ []) ts

abbrev pub young_txids : Snapshot → List String
young_txids snapshot =
    distinct_from [] (map (λ u. u.txid) (filter (is_young snapshot.tip_height) snapshot.utxos))

abbrev pub check_of : String → CoinbaseCheck → Bool
check_of txid r = same r.txid txid

-- `verdicts.get(txid)`
abbrev pub verdict_of : String → List CoinbaseCheck → Option Bool
verdict_of txid checks = elim (find (check_of txid) checks) [
  | none ↦ none
  | some r ↦ some r.is_coinbase
]

unfoldable pub record_verdict : String → Bool → ℕ → Db → Db
record_verdict txid is_coinbase now db = record db {
  coinbase_checks =
      insert_or_ignore (check_of txid)
        record { txid = txid; is_coinbase = is_coinbase; checked_at = now } db.coinbase_checks;
}

-- The lookups that answered are recorded; the others are not.
unfoldable pub classify : (String → Option Bool) → ℕ → List String → Db → Db
unfolding record_verdict
classify is_coinbase now [] db = db
classify is_coinbase now (t ∷ ts) db =
    classify is_coinbase now ts
      (elim (is_coinbase t) [ none ↦ db | some v ↦ record_verdict t v now db ])

abbrev pub unclassified : List String → Db → List String
unclassified young db =
    take max_coinbase_lookups (filter (λ t. not (any (check_of t) db.coinbase_checks)) young)

-- `immatureTxids`: the tables after the lookups; a transaction sits out if it is young and not
-- known to be no coinbase.
unfoldable pub classify_young : Network → Snapshot → ℕ → Db → Db
unfolding classify
classify_young net snapshot now db =
    classify net.is_coinbase now (unclassified (young_txids snapshot) db) db

abbrev pub sits_out : List String → Db → Utxo → Bool
sits_out young db u =
    any (same u.txid) young
    && elim (verdict_of u.txid db.coinbase_checks) [ none ↦ true | some v ↦ v ]

-- The coins of the explorers and those in flight.
unfoldable pub ledger_coins : String → Snapshot → Db → List Utxo
unfolding coin_map add_pending
ledger_coins script snapshot db = add_pending script db.pending (coin_map [] snapshot.utxos)

-- These, without the spent and the immature ones.
unfoldable pub offered : String → Snapshot → Db → List Utxo
offered script snapshot db =
    filter (λ u. not (sits_out (young_txids snapshot) db u))
      (filter (λ u. not (any (spent_at u.txid u.output_index) db.spent))
        (ledger_coins script snapshot db))

abbrev pub settled_db : Network → Snapshot → ℕ → Db → Db
settled_db net snapshot now db = reconcile snapshot.utxos now (classify_young net snapshot now db)

abbrev pub view_of : String → Snapshot → Db → Snapshot
view_of script snapshot db = record snapshot { utxos = offered script snapshot db }

-- The rest of `spendableUtxos`, once the explorers have answered or failed.
unfoldable pub spendable_after : Network → String → ℕ → Db → Option Snapshot → Db × Option Snapshot
spendable_after net script now db none = (db, none)
spendable_after net script now db (some snapshot) =
    let db' = settled_db net snapshot now db in (db', some (view_of script snapshot db'))

-- `spendableUtxos`: the tables after it, and the view.
unfoldable pub spendable_utxos : Network → String → ℕ → Db → Db × Option Snapshot
unfolding spendable_after
spendable_utxos net script now db = spendable_after net script now db net.utxos

abbrev pub lock_row : ℕ → Outpoint → SpentRow
lock_row now o = record { txid = o.txid; vout = o.output_index; created_at = now }

unfoldable pub lock_outpoints : List Outpoint → ℕ → List SpentRow → List SpentRow
lock_outpoints [] now spent = spent
lock_outpoints (o ∷ os) now spent =
    lock_outpoints os now
      (insert_or_replace (spent_at o.txid o.output_index) (lock_row now o) spent)

unfoldable pub lock_inputs : BuiltTx → ℕ → Db → Db
unfolding lock_outpoints
lock_inputs built now db = record db { spent = lock_outpoints built.inputs now db.spent }

unfoldable pub add_own_outputs : List OwnOutput → ℕ → List PendingRow → List PendingRow
add_own_outputs [] now pending = pending
add_own_outputs (o ∷ os) now pending = add_own_outputs os now (
    insert_or_replace (pending_at o.txid o.output_index)
      record { txid = o.txid; vout = o.output_index; satoshis = o.satoshis; created_at = now }
      pending)

unfoldable pub record_spend : BuiltTx → ℕ → Db → Db
unfolding lock_inputs record_verdict add_own_outputs
record_spend built now db =
    let locked = record_verdict built.txid false now (lock_inputs built now db) in
    record locked { pending = add_own_outputs built.own_outputs now locked.pending }

abbrev pub budget_of : ℕ → BudgetRow → Bool
budget_of day r = r.day == day

unfoldable pub spent_today : ℕ → Db → ℕ
spent_today day db = elim (find (budget_of day) db.budget) [ none ↦ 0 | some r ↦ r.satoshis ]
