-- ===== src/Treasury/Status.antt =====
-- `snapshot` of src/treasury.ts: the figures of the status page. The names of the providers and
-- their errors are left out.
use dash_faucet_cf.Base.{ℕ, String, Option, none, some, length, filter, total}
use dash_faucet_cf.Config.{FaucetConfig}
use dash_faucet_cf.Db.{Db, utc_day}
use dash_faucet_cf.Tx.{FaucetKey, sats}
use dash_faucet_cf.Treasury.{World, Snapshot}
use dash_faucet_cf.Treasury.Ledger.{prune, spendable_utxos, spent_today}
use dash_faucet_cf.Treasury.Merging.{is_collateral_coin}
use dash_faucet_cf.Treasury.Maintenance.{pool_coins}
use dash_faucet_cf.Treasury.Invitations.{Counts, invitation_counts}

-- The interface `Snapshot`.
pub record Overview : Type 0 where
  pub address : String
  pub balance_sats : ℕ
  pub available_utxos : ℕ
  pub pool_utxos : ℕ
  pub collateral_utxos : ℕ
  pub block_height : ℕ
  pub spent_today : ℕ
  pub invitations : Counts

unfoldable pub overview_of : FaucetConfig → World → FaucetKey → Snapshot → Db → Overview
overview_of cfg w key view db = record {
  address = key.address;
  balance_sats = total sats view.utxos;
  available_utxos = length view.utxos;
  pool_utxos = length (pool_coins cfg view.utxos);
  collateral_utxos = length (filter is_collateral_coin view.utxos);
  block_height = view.tip_height;
  spent_today = spent_today (utc_day w.now) db;
  invitations = invitation_counts cfg.invitations db;
}

unfoldable pub overview_from :
    FaucetConfig → World → FaucetKey → Db × Option Snapshot → Db × Option Overview
unfolding overview_of
overview_from cfg w key (db, none) = (db, none)
overview_from cfg w key (db, some view) = (db, some (overview_of cfg w key view db))

-- `snapshot`; `none` is a rejected promise. The key is loaded before anything is deleted.
unfoldable pub snapshot : FaucetConfig → World → Db → Db × Option Overview
unfolding overview_from
snapshot cfg w db = elim (w.key) [
  | none ↦ (db, none)
  | some key ↦ overview_from cfg w key (
      spendable_utxos w.network (w.lib.create_pkh_script key.pub_key_hash) w.now
        (prune cfg w.now db))
]
