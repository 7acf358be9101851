-- ===== src/Treasury/Maintenance.antt =====
-- Maintenance of the wallet in src/treasury.ts: `maintain`, `maintainLocked`, `consolidate` and
-- `merge`. The factor 0.99 is exact here.
pub mod Sent
pub mod Own
use dash_faucet_cf.Base.{
  ℕ, ◌+◌, ◌-◌, ◌*◌, ◌/◌, Bool, true, ◌&&◌, ◌||◌, not, Option, none, some, List, [], ◌∷◌, ltb, leb,
  ◌==◌, min, if◌then◌else◌, length, filter, find,
}
use dash_faucet_cf.Base.Sort.{sort}
use dash_faucet_cf.Config.{FaucetConfig}
use dash_faucet_cf.Db.{Db}
use dash_faucet_cf.Db.Sql.{delete_where}
use dash_faucet_cf.Tx.{Utxo, BuiltTx, FaucetKey, Result, ok, err, DashTx}
use dash_faucet_cf.Tx.Select.{descending_before}
use dash_faucet_cf.Tx.Build.{build_split, build_consolidation}
use dash_faucet_cf.Treasury.{World, Snapshot}
use dash_faucet_cf.Treasury.Ledger.{prune, spendable_utxos, record_spend}
use dash_faucet_cf.Treasury.Broadcast.{Settlement, settled, unsettled, threw, settle_broadcast}
use dash_faucet_cf.Treasury.Merging.{
  merging, schedule_maintenance, follow_up_ms, confirmation_poll_ms, collateral_coin_sats,
  is_collateral_coin, MergePlan, nothing, waiting, merge, plan_merge, plan_tidy, merge_demand,
}

-- `MaintenanceResult` by its action, with the transaction; `failed` is a rejected promise.
pub data Maintained : Type 0 where
  idle poll blocked failed : Maintained
  split consolidated : BuiltTx → Maintained

-- After a transaction of the faucet to itself was built.
unfoldable pub settle_own :
    World → (BuiltTx → Maintained) → BuiltTx → Db × Settlement → Db × Maintained
settle_own w done built (db, settled accepted) = (record_spend built w.now db, done built)
settle_own w done built (db, unsettled uncertain why) = (db, blocked)
settle_own w done built (db, threw) = (db, failed)

unfoldable pub send_own : World → (BuiltTx → Maintained) → Result BuiltTx → Db → Db × Maintained
unfolding settle_own
send_own w done (ok built) db = settle_own w done built (settle_broadcast w.network built w.now db)
send_own w done (err e) db = (db, blocked)

-- `merge`
unfoldable pub merge_coins : FaucetConfig → World → FaucetKey → List Utxo → Db → Db × Maintained
unfolding send_own
merge_coins cfg w key inputs db =
    if cfg.dry_run
    then (db, idle)
    else send_own w consolidated (build_consolidation w.lib key inputs) db

-- A demand that is out of reach is dropped.
abbrev pub drop_demand : ℕ → ℕ → Db → Db
drop_demand goal demand db =
    if goal == demand
    then record db { merge_demand = delete_where (λ d. leb demand d.satoshis) db.merge_demand }
    else db

-- The loop of `consolidate` over the goals: the tables after it, and the plan.
unfoldable pub plan_goals : FaucetConfig → DashTx → List Utxo → ℕ → List ℕ → Db → Db × MergePlan
plan_goals cfg lib utxos demand [] db = (db, nothing)
plan_goals cfg lib utxos demand (goal ∷ goals) db =
    let rest = plan_goals cfg lib utxos demand goals (drop_demand goal demand db) in
    elim (plan_merge cfg lib utxos goal) [
      | nothing ↦ rest
      | waiting ↦ (db, waiting)
      | merge coins reaches ↦ (db, merge coins reaches)
    ]

-- The goals of a pass, the largest first.
abbrev pub goals_of : FaucetConfig → List Utxo → ℕ → List ℕ
goals_of cfg utxos demand =
    let ready = length (filter is_collateral_coin utxos) in
    sort (λ a b. leb b a)
      (filter (ltb 0)
        (demand ∷ (if ltb ready cfg.collateral_coins then collateral_coin_sats else 0) ∷ []))

-- `this.planTidy(view) ?? plan`, where nothing is planned
abbrev pub or_tidy : FaucetConfig → List Utxo → MergePlan → MergePlan
or_tidy cfg utxos nothing =
    if merging cfg
    then elim (plan_tidy cfg utxos) [ none ↦ nothing | some plan ↦ plan ]
    else nothing
or_tidy cfg utxos waiting = waiting
or_tidy cfg utxos (merge coins reaches) = merge coins reaches

unfoldable pub follow_plan : FaucetConfig → World → FaucetKey → MergePlan → Db → Db × Maintained
unfolding merge_coins
follow_plan cfg w key nothing db = (db, idle)
follow_plan cfg w key waiting db = (db, poll)
follow_plan cfg w key (merge coins reaches) db = merge_coins cfg w key coins db

-- `consolidate`
unfoldable pub consolidate : FaucetConfig → World → FaucetKey → List Utxo → Db → Db × Maintained
unfolding plan_goals follow_plan
consolidate cfg w key utxos db =
    let (asked, demand) = merge_demand utxos db in
    let (planned, plan) = plan_goals cfg w.lib utxos demand (goals_of cfg utxos demand) asked in
    follow_plan cfg w key (or_tidy cfg utxos plan) planned

-- `u.satoshis < kept`, where `kept` is Infinity unless collateral coins are kept
abbrev pub is_not_kept : FaucetConfig → Utxo → Bool
is_not_kept cfg u = cfg.collateral_coins == 0 || ltb u.satoshis collateral_coin_sats

abbrev pub pool_coins : FaucetConfig → List Utxo → List Utxo
pool_coins cfg utxos = filter (λ u. leb cfg.pool_utxo_sats u.satoshis && is_not_kept cfg u) utxos

-- `u.satoshis * 0.99 >= 2 * cfg.poolUtxoSats`, for a coin that is not kept
abbrev pub is_splittable : FaucetConfig → Utxo → Bool
is_splittable cfg u = is_not_kept cfg u && leb (200 * cfg.pool_utxo_sats) (99 * u.satoshis)

-- `Math.min(wanted, affordable)`; nothing limits what is affordable where a pool coin is worth 0.
abbrev pub split_count : FaucetConfig → ℕ → ℕ → ℕ
split_count cfg pool satoshis =
    if cfg.pool_utxo_sats == 0
    then cfg.pool_target - pool
    else min (cfg.pool_target - pool) ((99 * satoshis) / (100 * cfg.pool_utxo_sats))

-- The split of the biggest coin.
unfoldable pub split_coin :
    FaucetConfig → World → FaucetKey → ℕ → Option Utxo → Db → Db × Maintained
unfolding send_own
split_coin cfg w key pool none db = (db, blocked)
split_coin cfg w key pool (some biggest) db =
    let count = split_count cfg pool biggest.satoshis in
    if ltb count 2
    then (db, blocked)
    else if cfg.dry_run
    then (db, idle)
    else send_own w split (build_split w.lib key (biggest ∷ []) count cfg.pool_utxo_sats) db

-- A merge where one makes a coin to split, or else a split.
unfoldable pub merge_or_split :
    FaucetConfig → World → FaucetKey → ℕ → Option Utxo → MergePlan → Db → Db × Maintained
unfolding split_coin merge_coins
merge_or_split cfg w key pool biggest (merge coins reaches) db = merge_coins cfg w key coins db
merge_or_split cfg w key pool biggest nothing db = split_coin cfg w key pool biggest db
merge_or_split cfg w key pool biggest waiting db = split_coin cfg w key pool biggest db

-- The part of `maintainLocked` that refills a pool which has run low.
unfoldable pub refill : FaucetConfig → World → FaucetKey → List Utxo → ℕ → Db → Db × Maintained
unfolding split_coin merge_or_split
refill cfg w key utxos pool db =
    let descending = sort descending_before utxos in
    elim (find (is_splittable cfg) descending) [
      | some u ↦ split_coin cfg w key pool (some u) db
      | none ↦
          if merging cfg
          then merge_or_split cfg w key pool (find (λ u. true) descending)
              (plan_merge cfg w.lib utxos ((200 * cfg.pool_utxo_sats + 98) / 99)) db
          else split_coin cfg w key pool (find (λ u. true) descending) db
    ]

-- From the coins on.
unfoldable pub tend : FaucetConfig → World → FaucetKey → List Utxo → Db → Db × Maintained
unfolding refill consolidate
tend cfg w key utxos db =
    if leb cfg.pool_min (length (pool_coins cfg utxos))
    then consolidate cfg w key utxos db
    else refill cfg w key utxos (length (pool_coins cfg utxos)) db

unfoldable pub tend_view : FaucetConfig → World → FaucetKey → Db × Option Snapshot → Db × Maintained
unfolding tend
tend_view cfg w key (db, none) = (db, blocked)
tend_view cfg w key (db, some view) = tend cfg w key view.utxos db

unfoldable pub tend_with : FaucetConfig → World → Option FaucetKey → Db → Db × Maintained
unfolding tend_view
tend_with cfg w none db = (db, failed)
tend_with cfg w (some key) db =
    tend_view cfg w key
      (spendable_utxos w.network (w.lib.create_pkh_script key.pub_key_hash) w.now db)

-- `maintainLocked`
unfoldable pub maintain_locked : FaucetConfig → World → Db → Db × Maintained
unfolding tend_with
maintain_locked cfg w db = tend_with cfg w w.key (prune cfg w.now db)

-- `maintain`: a pass books the next one.
unfoldable pub book_next : FaucetConfig → World → Db × Maintained → Db × Maintained
book_next cfg w (db, split built) = (schedule_maintenance cfg w follow_up_ms db, split built)
book_next cfg w (db, consolidated built) =
    (schedule_maintenance cfg w follow_up_ms db, consolidated built)
book_next cfg w (db, poll) = (schedule_maintenance cfg w confirmation_poll_ms db, poll)
book_next cfg w (db, idle) = (db, idle)
book_next cfg w (db, blocked) = (db, blocked)
book_next cfg w (db, failed) = (db, failed)

unfoldable pub maintain : FaucetConfig → World → Db → Db × Maintained
unfolding maintain_locked book_next
maintain cfg w db = book_next cfg w (maintain_locked cfg w db)
