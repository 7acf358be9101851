-- ===== src/Tests/Coins.antt =====
-- Runs of the choice of coins, the builders and the ledger of coins, and their theorems there.
use dash_faucet_cf.Base.{
  ℕ, List, ◌+◌, ◌<◌, ◌≡◌, refl, inl, true, false, none, some, [], ◌∷◌, All, total, arith, length,
}
use mathlib.Core.List.Perm
use dash_faucet_cf.Base.Int.{pos}
use dash_faucet_cf.Base.Sort.{sort}
use dash_faucet_cf.Db.{empty_db}
use dash_faucet_cf.Tx.{Utxo, BuiltTx, fee_ceiling, ok, err, insufficient_funds, sats}
use dash_faucet_cf.Tx.Select.{
  required_for, largest_first_from, select_many, select_inputs, prefix_sums, sum_with, advance,
  select_merge_inputs,
}
use dash_faucet_cf.Tx.Select.Covers.{Covers, select_inputs-Covers}
use dash_faucet_cf.Tx.Select.Complete.{select_inputs_complete}
use dash_faucet_cf.Tx.Select.Merge.{IsMergeSelection, select_merge_inputs-IsMergeSelection}
use dash_faucet_cf.Tx.Build.{own_from, finish, readdress, build_payout, build_consolidation}
use dash_faucet_cf.Tx.Build.Pays.{IsPayout, build_payout-IsPayout}
use dash_faucet_cf.Tx.Build.Merges.{IsFaithful, IsMerge, build_consolidation-IsMerge}
use dash_faucet_cf.Treasury.Ledger.{coin_at, lock_inputs, spendable_utxos}
use dash_faucet_cf.Treasury.Ledger.Locks.{HasLock}
use dash_faucet_cf.Treasury.Ledger.Offered.{spent_input_not_offered}
use dash_faucet_cf.Treasury.Broadcast.{settle_broadcast}
use dash_faucet_cf.Treasury.Broadcast.Outcome.{Means, settle_broadcast-Means}
use dash_faucet_cf.Treasury.{Snapshot}
use dash_faucet_cf.Treasury.Merging.{
  merge, plan_merge, plan_of, merge_material, spare_coins, material_coins, below_goal,
}
use dash_faucet_cf.Treasury.Merging.Kept.{IsMergeable, plan_merge-IsMergeable}
use dash_faucet_cf.Base.Text.{codes}
use dash_faucet_cf.Tx.Build.{with_change}
use dash_faucet_cf.Tx.Build.Payload.{asset_lock_payload, is_pub_key_hash, le_hex}
use dash_faucet_cf.Tx.Build.AssetLock.{
  build_invitation_asset_lock, IsAssetLock, build_invitation_asset_lock-IsAssetLock,
}
use dash_faucet_cf.Tx.Build.{equal_outputs, build_split}
use dash_faucet_cf.Tx.Build.Splits.{IsSplit, build_split-IsSplit}
use dash_faucet_cf.Tests.{plain_lib, faucet_key, coin_of, wallet, settings, network, view}

abbrev coin_a : Utxo
coin_a = coin_of "a" 60000 (some 5)

abbrev coin_b : Utxo
coin_b = coin_of "b" 250000 (some 6)

picks_b : select_inputs plain_lib wallet 100000 2 0 ≡ ok (coin_b ∷ [])
unfolding select_inputs select_many required_for largest_first_from fee_ceiling sort
picks_b = refl

select_inputs-Covers_example : Covers (required_for plain_lib 100000 2 0) wallet (coin_b ∷ [])
select_inputs-Covers_example =
    select_inputs-Covers plain_lib wallet (coin_b ∷ []) 100000 2 0 picks_b

too_poor : select_inputs plain_lib wallet 900000 2 0 ≡ err (insufficient_funds 400000 900522)
unfolding select_inputs select_many required_for largest_first_from fee_ceiling sort
too_poor = refl

select_inputs_complete_example :
    total sats (coin_a ∷ []) < required_for plain_lib 900000 2 0 (length (coin_a ∷ []))
select_inputs_complete_example =
    select_inputs_complete plain_lib wallet (coin_a ∷ []) 900000 2 0
      (insufficient_funds 400000 900522) too_poor
      (coin_b ∷ coin_of "c" 90000 none ∷ [], Perm.refl wallet) (omega arith) (inl refl)

select_merge_inputs-IsMergeSelection_example :
    IsMergeSelection plain_lib wallet 300000 2 (select_merge_inputs plain_lib wallet 300000 2)
select_merge_inputs-IsMergeSelection_example =
    select_merge_inputs-IsMergeSelection plain_lib wallet 300000 2

abbrev paid_user : BuiltTx
paid_user = record {
  hex = "hex";
  txid = "t1";
  inputs = record { txid = "b"; output_index = 0 } ∷ [];
  own_outputs = [];
  fee = pos 150000;
  total_in = 250000;
}

builds : build_payout plain_lib faucet_key wallet "user" 100000 (some 3) ≡ ok paid_user
unfolding build_payout select_inputs select_many required_for largest_first_from fee_ceiling sort
    finish own_from readdress
builds = refl

build_payout-IsPayout_example :
    IsPayout plain_lib faucet_key wallet "user" 100000 (some 3) paid_user
build_payout-IsPayout_example =
    build_payout-IsPayout plain_lib faucet_key wallet "user" 100000 (some 3) paid_user builds

plain_lib-IsFaithful : IsFaithful plain_lib
plain_lib-IsFaithful r = (
  record {
    transaction = "hex";
    inputs = r.inputs;
    outputs = r.outputs;
    extra_payload = r.extra_payload;
  },
  refl,
  refl,
  refl,
)

worth_merging :
    fee_ceiling plain_lib 2 1 0 + plain_lib.legacy_dust < total sats (coin_a ∷ coin_b ∷ [])
unfolding fee_ceiling
worth_merging = omega arith

build_consolidation-IsMerge_example :
    (built : BuiltTx) × (build_consolidation plain_lib faucet_key (coin_a ∷ coin_b ∷ []) ≡ ok built)
    × IsMerge plain_lib faucet_key (coin_a ∷ coin_b ∷ []) built
build_consolidation-IsMerge_example =
    build_consolidation-IsMerge plain_lib faucet_key (coin_a ∷ coin_b ∷ []) plain_lib-IsFaithful
      (omega arith) worth_merging

plans : plan_merge settings plain_lib wallet 280000 ≡ merge (coin_b ∷ coin_a ∷ []) true
unfolding plan_merge plan_of merge_material spare_coins material_coins below_goal sort
    select_merge_inputs prefix_sums sum_with advance fee_ceiling
plans = refl

plan_merge-IsMergeable_example : IsMergeable settings plain_lib 280000 (coin_b ∷ coin_a ∷ []) true
plan_merge-IsMergeable_example =
    plan_merge-IsMergeable settings plain_lib wallet 280000 (coin_b ∷ coin_a ∷ []) true
      (omega arith) plans

settle_broadcast-Means_example :
    Means network paid_user 5000 empty_db (settle_broadcast network paid_user 5000 empty_db)
settle_broadcast-Means_example = settle_broadcast-Means network paid_user 5000 empty_db

spent_input_not_offered_example :
    HasLock "b" 0 1000
      (spendable_utxos network "faucet" 2000 (lock_inputs paid_user 1000 empty_db)).0.spent
    × (v : Snapshot) × ((spendable_utxos network "faucet" 2000
          (lock_inputs paid_user 1000 empty_db)).1
        ≡ some v)
    × All (λ u. coin_at "b" 0 u ≡ false) v.utxos
spent_input_not_offered_example =
    spent_input_not_offered paid_user 1000 empty_db network view "faucet" 2000 "b" 0 refl refl
      (inl (omega arith))

abbrev voucher_hash : List ℕ
voucher_hash = codes "00112233445566778899aabbccddeeff00112233"

abbrev funded_voucher : BuiltTx
funded_voucher = record {
  hex = "hex";
  txid = "t1";
  inputs = record { txid = "b"; output_index = 0 } ∷ [];
  own_outputs = record { txid = "t1"; output_index = 1; satoshis = 149737 } ∷ [];
  fee = pos 263;
  total_in = 250000;
}

funds :
    build_invitation_asset_lock plain_lib faucet_key wallet voucher_hash 100000 ≡ ok funded_voucher
unfolding build_invitation_asset_lock asset_lock_payload is_pub_key_hash le_hex with_change
    select_inputs select_many required_for largest_first_from fee_ceiling sort finish own_from
funds = refl

build_invitation_asset_lock-IsAssetLock_example :
    IsAssetLock plain_lib faucet_key wallet voucher_hash 100000 funded_voucher
build_invitation_asset_lock-IsAssetLock_example =
    build_invitation_asset_lock-IsAssetLock plain_lib faucet_key wallet voucher_hash 100000
      funded_voucher funds

abbrev pool_split : BuiltTx
pool_split = record {
  hex = "hex";
  txid = "t1";
  inputs = record { txid = "b"; output_index = 0 } ∷ [];
  own_outputs =
      record { txid = "t1"; output_index = 0; satoshis = 50000 }
      ∷ record { txid = "t1"; output_index = 1; satoshis = 50000 }
      ∷ record { txid = "t1"; output_index = 2; satoshis = 50000 }
      ∷ record { txid = "t1"; output_index = 3; satoshis = 99706 }
      ∷ [];
  fee = pos 294;
  total_in = 250000;
}

splits : build_split plain_lib faucet_key wallet 3 50000 ≡ ok pool_split
unfolding build_split equal_outputs with_change select_inputs select_many required_for
    largest_first_from fee_ceiling sort finish own_from
splits = refl

build_split-IsSplit_example : IsSplit plain_lib faucet_key wallet 3 50000 pool_split
build_split-IsSplit_example =
    build_split-IsSplit plain_lib faucet_key wallet 3 50000 pool_split splits
