-- ===== src/Treasury/Payout.antt =====
-- `payoutLocked` of src/treasury.ts, from the admitted request to the bookkeeping.
pub mod Entitled
pub mod Admit
pub mod Refused
pub mod Locked
pub mod Charge
pub mod Commit
pub mod Budget
pub mod Limits
pub mod Claims
pub mod Tallies
pub mod Replay
pub mod Codes
use dash_faucet_cf.Base.{
  ℕ, ◌+◌, ◌-◌, ◌/◌, String, Bool, true, false, ◌&&◌, ◌||◌, not, Option, none, some, List, [], ◌∷◌,
  ◌++◌, ltb, ◌==◌, same, if◌then◌else◌, length, filter, any, total,
}
use dash_faucet_cf.Config.{FaucetConfig, coin}
use dash_faucet_cf.Db.{Db, trusted, mn, Claim, BudgetRow, utc_day}
use dash_faucet_cf.Db.Sql.{insert_or_replace, update_where}
use dash_faucet_cf.Tx.{
  Utxo, BuiltTx, TxError, insufficient_funds, too_fragmented, unconfirmed_funds, self_pay, refused,
  Result, ok, err, DashTx, FaucetKey, sats,
}
use dash_faucet_cf.Tx.Build.{build_payout}
use dash_faucet_cf.Accounts.{record_redemption}
use dash_faucet_cf.Treasury.{World, Snapshot}
use dash_faucet_cf.Treasury.Ledger.{prune, spendable_utxos, record_spend, budget_of}
use dash_faucet_cf.Treasury.Broadcast.{Settlement, settled, unsettled, threw, settle_broadcast}
use dash_faucet_cf.Treasury.Keys.{record_key_payout}
use dash_faucet_cf.Treasury.Merging.{
  merging, schedule_maintenance, follow_up_ms, confirmation_poll_ms, collateral_coin_sats,
  is_collateral_coin, MergePlan, nothing, waiting, merge, plan_merge,
}
use dash_faucet_cf.Treasury.Admission.{
  PayoutRequest, below_reserve, tx_error, chain_error, not_settled, PayoutResult, paid, fragmented,
  no_funds, own_address, chain_unavailable, build_error, exception, Payer, public_faucet, by_key,
  by_code, Admission, refuse, admit, claim_of, admission,
}

abbrev pub is_public : Payer → Bool
is_public public_faucet = true
is_public (by_key _) = false
is_public (by_code _) = false

abbrev pub is_mn : Payer → Bool
is_mn (by_key key) = elim (key.tier) [ mn ↦ true | trusted ↦ false ]
is_mn _ = false

abbrev pub is_key : Payer → Bool
is_key (by_key _) = true
is_key _ = false

-- The second attempt of `buildPayoutSparingCollateral`: only a lack of coins allows it.
unfoldable pub or_with_all : Result BuiltTx → Result BuiltTx → Result BuiltTx
or_with_all (ok built) all_coins = ok built
or_with_all (err (insufficient_funds a r)) all_coins = all_coins
or_with_all (err (too_fragmented n m)) all_coins = all_coins
or_with_all (err (unconfirmed_funds c r)) all_coins = all_coins
or_with_all (err self_pay) all_coins = err self_pay
or_with_all (err refused) all_coins = err refused

-- `buildPayoutSparingCollateral`
unfoldable pub build_sparing :
    FaucetConfig → DashTx → FaucetKey → List Utxo → String → ℕ → Bool → Result BuiltTx
unfolding or_with_all
build_sparing cfg lib key utxos recipient satoshis for_collateral =
    let build = λ (coins : List Utxo).
      build_payout lib key coins recipient satoshis (some cfg.max_payout_inputs) in
    let spare = filter (λ u. ltb u.satoshis collateral_coin_sats) utxos in
    if for_collateral || cfg.collateral_coins == 0
    then build utxos
    else if length spare == length utxos
    then build utxos
    else or_with_all (build spare) (build utxos)

-- `planMerge(view, demand).action === "none"`
abbrev pub is_nothing : MergePlan → Bool
is_nothing nothing = true
is_nothing waiting = false
is_nothing (merge _ _) = false

abbrev pub add_demand : ℕ → ℕ → Db → Db
add_demand demand now db = record db {
  merge_demand = db.merge_demand ++ record { satoshis = demand; created_at = now } ∷ [];
}

-- The `catch` around the build.
unfoldable pub build_failed :
    FaucetConfig → World → List Utxo → ℕ → TxError → Db → Db × PayoutResult
build_failed cfg w utxos satoshis (insufficient_funds a r) db =
    (db, no_funds (tx_error (insufficient_funds a r)))
build_failed cfg w utxos satoshis (unconfirmed_funds c r) db = (
  schedule_maintenance cfg w follow_up_ms db,
  fragmented (unconfirmed_funds c r) (some (confirmation_poll_ms / 1000)),
)
build_failed cfg w utxos satoshis (too_fragmented n m) db =
    if not (merging cfg) || is_nothing (plan_merge cfg w.lib utxos (satoshis + coin))
    then (db, fragmented (too_fragmented n m) none)
    else (
      schedule_maintenance cfg w follow_up_ms (add_demand (satoshis + coin) w.now db),
      fragmented (too_fragmented n m) (some (confirmation_poll_ms / 1000)),
    )
build_failed cfg w utxos satoshis self_pay db = (db, own_address)
build_failed cfg w utxos satoshis refused db = (db, build_error)

abbrev pub receipt : Payer → BuiltTx → ℕ → Bool → List String → PayoutResult
receipt payer built satoshis dry accepted = paid record {
  txid = built.txid;
  satoshis = satoshis;
  replay = false;
  dry_run = dry;
  accepted = accepted;
  key_id = elim payer [ by_key key ↦ some key.id | _ ↦ none ];
  code_label = elim payer [ by_code code ↦ some code.label | _ ↦ none ];
}

-- `INSERT ... ON CONFLICT(day) DO UPDATE SET satoshis = satoshis + excluded.satoshis`
unfoldable pub add_budget : ℕ → ℕ → List BudgetRow → List BudgetRow
add_budget day satoshis rows =
    if any (budget_of day) rows
    then update_where (budget_of day) (λ r. record r { satoshis = r.satoshis + satoshis }) rows
    else rows ++ record { day = day; satoshis = satoshis } ∷ []

abbrev pub claim_made : PayoutRequest → BuiltTx → ℕ → ℕ → Claim
claim_made input built satoshis now = record {
  recipient = input.address;
  day = utc_day now;
  txid = built.txid;
  satoshis = satoshis;
  created_at = now;
}

-- The bookkeeping of a public payout.
unfoldable pub record_claim : PayoutRequest → BuiltTx → ℕ → ℕ → Db → Db
unfolding add_budget
record_claim input built satoshis now db = record db {
  claims =
      insert_or_replace (claim_of input.address (utc_day now)) (claim_made input built satoshis now)
        db.claims;
  ip_hits = db.ip_hits ++ record { ip = input.ip; created_at = now } ∷ [];
  budget = add_budget (utc_day now) satoshis db.budget;
}

-- The row that a payout leaves with its payer.
unfoldable pub charge : Payer → PayoutRequest → BuiltTx → ℕ → ℕ → Db → Db
unfolding record_claim record_key_payout record_redemption
charge public_faucet input built satoshis now db = record_claim input built satoshis now db
charge (by_key key) input built satoshis now db =
    record_key_payout key built.txid input.address satoshis now db
charge (by_code code) input built satoshis now db =
    record_redemption code input.address built.txid satoshis now db

-- A payout that may have landed is charged to a key or a code, but not to the public ledgers.
unfoldable pub charge_uncertain : Payer → Bool → PayoutRequest → BuiltTx → ℕ → ℕ → Db → Db
unfolding charge
charge_uncertain payer uncertain input built satoshis now db =
    if uncertain && not (is_public payer) then charge payer input built satoshis now db else db

abbrev pub spends : BuiltTx → Utxo → Bool
spends built u = any (λ o. same o.txid u.txid && o.output_index == u.output_index) built.inputs

abbrev pub spent_collateral : List Utxo → BuiltTx → Bool
spent_collateral utxos built = any (λ u. is_collateral_coin u && spends built u) utxos

-- 4. Commit.
unfoldable pub commit :
    FaucetConfig → World → PayoutRequest → Payer → ℕ → List Utxo → BuiltTx → Db → Db
unfolding charge
commit cfg w input payer satoshis utxos built db =
    let booked = charge payer input built satoshis w.now (record_spend built w.now db) in
    if is_key payer || spent_collateral utxos built
    then schedule_maintenance cfg w follow_up_ms booked
    else booked

-- From a broadcast's settlement to the result.
unfoldable pub conclude :
    FaucetConfig
    → World
    → PayoutRequest
    → Payer
    → ℕ
    → List Utxo
    → BuiltTx
    → Db
    → Settlement
    → Db × PayoutResult
unfolding commit charge_uncertain
conclude cfg w input payer satoshis utxos built db (settled accepted) =
    (commit cfg w input payer satoshis utxos built db, receipt payer built satoshis false accepted)
conclude cfg w input payer satoshis utxos built db (unsettled uncertain why) = (
  charge_uncertain payer uncertain input built satoshis w.now db,
  chain_unavailable (not_settled why),
)
conclude cfg w input payer satoshis utxos built db threw = (db, exception)

-- From the built transaction to the result.
unfoldable pub send :
    FaucetConfig → World → PayoutRequest → Payer → ℕ → List Utxo → BuiltTx → Db → Db × PayoutResult
send cfg w input payer satoshis utxos built db =
    let (db', outcome) = settle_broadcast w.network built w.now db in
    if cfg.dry_run
    then (db, receipt payer built satoshis true [])
    else conclude cfg w input payer satoshis utxos built db' outcome

-- `balance - satoshis < cfg.apiKeys.reserveSats`, for keys and codes
abbrev pub eats_reserve : FaucetConfig → Payer → ℕ → List Utxo → Bool
eats_reserve cfg payer satoshis utxos =
    not (is_public payer) && ltb (total sats utxos) (cfg.api_keys.reserve_sats + satoshis)

-- From the coins to the result.
unfoldable pub pay_from :
    FaucetConfig
    → World
    → PayoutRequest
    → Payer
    → ℕ
    → FaucetKey
    → List Utxo
    → Db
    → Db × PayoutResult
pay_from cfg w input payer satoshis key utxos db =
    if eats_reserve cfg payer satoshis utxos
    then (db, no_funds (below_reserve (total sats utxos) cfg.api_keys.reserve_sats))
    else elim (build_sparing cfg w.lib key utxos input.pub_key_hash satoshis (is_mn payer)) [
      | ok built ↦ send cfg w input payer satoshis utxos built db
      | err e ↦ build_failed cfg w utxos satoshis e db
    ]

-- What follows the view of the coins, which is `none` where the explorers failed.
unfoldable pub pay_view :
    FaucetConfig
    → World
    → PayoutRequest
    → Payer
    → ℕ
    → FaucetKey
    → Db × Option Snapshot
    → Db × PayoutResult
pay_view cfg w input payer satoshis key (db, none) = (db, chain_unavailable chain_error)
pay_view cfg w input payer satoshis key (db, some view) =
    pay_from cfg w input payer satoshis key view.utxos db

-- An admitted payout.
unfoldable pub pay : FaucetConfig → World → PayoutRequest → Payer → ℕ → Db → Db × PayoutResult
pay cfg w input payer satoshis db = elim (w.key) [
  | none ↦ (db, exception)
  | some key ↦
      pay_view cfg w input payer satoshis key
        (spendable_utxos w.network (w.lib.create_pkh_script key.pub_key_hash) w.now db)
]

-- What follows the checks.
unfoldable pub pay_admitted :
    FaucetConfig → World → PayoutRequest → Db → Admission → Db × PayoutResult
pay_admitted cfg w input db (refuse result) = (db, result)
pay_admitted cfg w input db (admit payer satoshis) = pay cfg w input payer satoshis db

-- `payoutLocked`
unfoldable pub payout_locked : FaucetConfig → World → PayoutRequest → Db → Db × PayoutResult
unfolding pay_admitted
payout_locked cfg w input db =
    let pruned = prune cfg w.now db in
    pay_admitted cfg w input pruned (admission cfg input w.now pruned)
