-- ===== src/Treasury/Merging.antt =====
-- Which coins src/treasury.ts merges: `spareCoins`, `mergeMaterial`, `planMerge`, `planTidy`,
-- `mergeDemand`, and the booking of the next maintenance by `scheduleMaintenance`.
pub mod Kept
use dash_faucet_cf.Base.{
  ℕ, ◌+◌, ◌-◌, ◌*◌, Bool, true, ◌&&◌, ◌||◌, not, Option, none, some, List, [], ◌∷◌, ltb, leb, ◌==◌,
  max, if◌then◌else◌, length, take, drop, filter, total,
}
use dash_faucet_cf.Base.Sort.{sort}
use dash_faucet_cf.Config.{FaucetConfig, coin, mn_collateral_sats}
use dash_faucet_cf.Db.{Db, MergeDemand}
use dash_faucet_cf.Db.Sql.{delete_where}
use dash_faucet_cf.Tx.{Utxo, DashTx, sats, is_confirmed}
use dash_faucet_cf.Tx.Select.{ascending_before, descending_before, MergeInputs, select_merge_inputs}
use dash_faucet_cf.Treasury.{World}
use dash_faucet_cf.Treasury.Ledger.{lists}

abbrev pub collateral_coin_sats : ℕ
collateral_coin_sats = mn_collateral_sats + coin

abbrev pub follow_up_ms : ℕ
follow_up_ms = 2000

abbrev pub confirmation_poll_ms : ℕ
confirmation_poll_ms = 60000

abbrev pub loose_coins_max : ℕ
loose_coins_max = 5

-- `get merging`
abbrev pub merging : FaucetConfig → Bool
merging cfg = ltb 0 cfg.collateral_coins && not cfg.dry_run

-- Whether `booked` lies after `at`, or nothing is booked.
abbrev pub is_later : Option ℕ → ℕ → Bool
is_later booked at = elim booked [ none ↦ true | some b ↦ ltb at b ]

-- `scheduleMaintenance`: brings the alarm forward, never back.
unfoldable pub schedule_maintenance : FaucetConfig → World → ℕ → Db → Db
schedule_maintenance cfg w delay_ms db =
    if merging cfg && (w.alarm_works && is_later db.alarm (w.clock + delay_ms))
    then record db { alarm = some (w.clock + delay_ms) }
    else db

-- `xs.slice(-n)`, which is the whole list at `n = 0`
abbrev pub slice_last {ℓ} : {A : Type ℓ} → ℕ → List A → List A
slice_last n xs = if n == 0 then xs else drop (length xs - n) xs

abbrev pub is_pool_coin : FaucetConfig → Utxo → Bool
is_pool_coin cfg u = leb cfg.pool_utxo_sats u.satoshis && ltb u.satoshis (2 * cfg.pool_utxo_sats)

abbrev pub is_collateral_coin : Utxo → Bool
is_collateral_coin u = leb collateral_coin_sats u.satoshis

-- `coins.filter((u) => !keep.has(outpointKey(...)))`
abbrev pub without : List Utxo → List Utxo → List Utxo
without keep coins = filter (λ u. not (lists keep u.txid u.output_index)) coins

-- The coins below the goal, largest first.
unfoldable pub below_goal : List Utxo → ℕ → List Utxo
below_goal utxos goal = sort descending_before (filter (λ u. ltb u.satoshis goal) utxos)

-- `spareCoins(view, goal).material`
unfoldable pub material_coins : FaucetConfig → List Utxo → ℕ → List Utxo
unfolding below_goal
material_coins cfg utxos goal =
    let below = below_goal utxos goal in
    without (slice_last cfg.pool_target (filter (is_pool_coin cfg) below)) below

-- `collateral.slice(Math.max(0, collateral.length - cfg.collateralCoins))`
abbrev pub kept_collateral : FaucetConfig → List Utxo → List Utxo
kept_collateral cfg material =
    drop (length (filter is_collateral_coin material) - cfg.collateral_coins)
      (filter is_collateral_coin material)

-- `spareCoins(view, goal).spare`
unfoldable pub spare_coins : FaucetConfig → List Utxo → ℕ → List Utxo
unfolding material_coins
spare_coins cfg utxos goal =
    let material = material_coins cfg utxos goal in without (kept_collateral cfg material) material

unfoldable pub merge_material : FaucetConfig → List Utxo → ℕ → List Utxo
unfolding spare_coins material_coins
merge_material cfg utxos goal =
    if leb goal (total sats (spare_coins cfg utxos goal))
    then spare_coins cfg utxos goal
    else material_coins cfg utxos goal

pub data MergePlan : Type 0 where
  nothing waiting : MergePlan
  merge : List Utxo → Bool → MergePlan

-- `!reaches && (inputs.length < 2 || inputs.length === confirmed.length)`
abbrev pub is_stuck : MergeInputs → List Utxo → Bool
is_stuck m confirmed =
    not m.reaches && (ltb (length m.inputs) 2 || length m.inputs == length confirmed)

-- The plan for a choice of confirmed coins, with as many material coins still confirming.
unfoldable pub plan_of : MergeInputs → List Utxo → ℕ → MergePlan
plan_of m confirmed pending =
    if is_stuck m confirmed
    then (if pending == 0 then nothing else waiting)
    else merge m.inputs m.reaches

unfoldable pub plan_merge : FaucetConfig → DashTx → List Utxo → ℕ → MergePlan
unfolding merge_material plan_of
plan_merge cfg lib utxos goal =
    let material = merge_material cfg utxos goal in
    let confirmed = filter is_confirmed material in
    if ltb (total sats material) goal
    then nothing
    else plan_of (select_merge_inputs lib confirmed goal cfg.max_payout_inputs) confirmed
        (length material - length confirmed)

-- `planTidy`; `none` for null
unfoldable pub plan_tidy : FaucetConfig → List Utxo → Option MergePlan
unfolding spare_coins
plan_tidy cfg utxos =
    let loose =
      sort ascending_before (filter is_confirmed (spare_coins cfg utxos collateral_coin_sats)) in
    if leb (length loose) loose_coins_max || ltb cfg.max_payout_inputs 2
    then none
    else some (merge (take cfg.max_payout_inputs loose) true)

abbrev pub largest : List Utxo → ℕ
largest [] = 0
largest (u ∷ us) = max u.satoshis (largest us)

abbrev pub largest_demand : List MergeDemand → ℕ
largest_demand [] = 0
largest_demand (d ∷ ds) = max d.satoshis (largest_demand ds)

-- `mergeDemand`: the tables after it, and the demand.
unfoldable pub merge_demand : List Utxo → Db → Db × ℕ
merge_demand utxos db =
    let left = delete_where (λ d. leb d.satoshis (largest utxos)) db.merge_demand in
    (record db { merge_demand = left }, largest_demand left)
