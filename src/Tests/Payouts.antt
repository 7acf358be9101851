-- ===== src/Tests/Payouts.antt =====
-- Runs of `payoutLocked`, and its theorems at these runs.
use dash_faucet_cf.Base.{true, false, ◌+◌, ◌≡◌, refl, false, none, [], ◌∷◌, All, total, arith}
use dash_faucet_cf.Base.Sort.{sort}
use dash_faucet_cf.Tx.{fee_ceiling}
use dash_faucet_cf.Tx.Select.{required_for, largest_first_from, select_many, select_inputs}
use dash_faucet_cf.Tx.Build.{own_from, finish, readdress, build_payout}
use dash_faucet_cf.Treasury.Ledger.{
  prune, settle_row, settle_rows, reconcile, set_coin, coin_map, add_pending, distinct_from,
  record_verdict, classify, classify_young, ledger_coins, offered, spendable_after, spendable_utxos,
  lock_outpoints, lock_inputs, add_own_outputs, record_spend, spent_today,
}
use dash_faucet_cf.Treasury.Broadcast.{
  settle_rejected, settle_silent, settle_again, settle_broadcast,
}
use dash_faucet_cf.Treasury.Keys.{
  limit_per_day, settle_amount, authorize_key_payout, record_key_payout,
}
use dash_faucet_cf.Treasury.Merging.{schedule_maintenance}
use dash_faucet_cf.Treasury.Admission.{admit_budget, admit_ip, admit_public, admission}
use dash_faucet_cf.Treasury.Payout.{
  or_with_all, build_sparing, add_budget, record_claim, charge, charge_uncertain, commit, conclude,
  send, pay_from, pay_view, pay, pay_admitted, payout_locked,
}
use dash_faucet_cf.Accounts.{check_row, check_code, record_redemption}
use dash_faucet_cf.Treasury.Admission.{Receipt, paid, by_key, admit}
use dash_faucet_cf.Treasury.Payout.Admit.{admission-IsEntitled}
use dash_faucet_cf.Treasury.Payout.Entitled.{IsEntitled}
use dash_faucet_cf.Treasury.Payout.Commit.{Accounted, payout_locked-Accounted}
use dash_faucet_cf.Treasury.Payout.Limits.{IsWithinBudget, payout_locked-IsWithinBudget}
use dash_faucet_cf.Treasury.Payout.Claims.{IsDated, amount_on, payout_locked-Balances}
use dash_faucet_cf.Treasury.Payout.Codes.{payout_locked-IsRedeemedSoundly}
use dash_faucet_cf.Accounts.Redeeming.{IsAudited, IsOncePerAddress}
use dash_faucet_cf.Treasury.Keys.Limits.{IsKeyTable, IsTallied}
use dash_faucet_cf.Treasury.Payout.Tallies.{payout_locked-IsTallied}
use dash_faucet_cf.Treasury.Payout.Replay.{replay_receipt, payout_locked-replays}
use dash_faucet_cf.Treasury.Tokens.{
  consume_cap_token, after_all, call, look, burn, consume_cap_token-once,
}
use dash_faucet_cf.Treasury.Invitations.Ending.{pay as payout}
use dash_faucet_cf.Tests.{
  settings, world_at, morning, noon, ask, ask_by_key, ask_by_code, user_key, stocked,
}

abbrev first_receipt : Receipt
first_receipt = record {
  txid = "t1";
  satoshis = 100000;
  replay = false;
  dry_run = false;
  accepted = "relay" ∷ [];
  key_id = none;
  code_label = none;
}

first_paid : (payout_locked settings (world_at morning) ask stocked).1 ≡ paid first_receipt
unfolding sort fee_ceiling required_for largest_first_from select_many select_inputs own_from finish
    readdress build_payout prune settle_row settle_rows reconcile set_coin coin_map add_pending
    distinct_from record_verdict classify classify_young ledger_coins offered spendable_after
    spendable_utxos lock_outpoints lock_inputs add_own_outputs record_spend spent_today
    settle_rejected settle_silent settle_again settle_broadcast limit_per_day settle_amount
    authorize_key_payout record_key_payout schedule_maintenance admit_budget admit_ip admit_public
    admission or_with_all build_sparing add_budget record_claim charge charge_uncertain commit
    conclude send pay_from pay_view pay pay_admitted payout_locked check_row check_code
    record_redemption
first_paid = refl

payout_locked-Accounted_example :
    Accounted settings
      (world_at morning)
      ask_by_key
      (prune settings morning stocked)
      (payout_locked settings (world_at morning) ask_by_key stocked)
payout_locked-Accounted_example =
    payout_locked-Accounted settings (world_at morning) ask_by_key stocked

none_spent : IsWithinBudget settings stocked
unfolding spent_today
none_spent day = omega arith

payout_locked-IsWithinBudget_example :
    IsWithinBudget settings (payout_locked settings (world_at morning) ask stocked).0
payout_locked-IsWithinBudget_example =
    payout_locked-IsWithinBudget settings (world_at morning) ask stocked none_spent

payout_locked-replays_example :
    payout_locked settings
      (world_at noon)
      ask
      (payout_locked settings (world_at morning) ask stocked).0
    ≡ (
      prune settings noon (payout_locked settings (world_at morning) ask stocked).0,
      replay_receipt first_receipt,
    )
payout_locked-replays_example =
    payout_locked-replays settings (world_at morning) (world_at noon) ask ask stocked first_receipt
      (refl, refl) first_paid refl refl (refl, refl) refl refl

key_admitted : admission settings ask_by_key morning stocked ≡ admit (by_key user_key) 100000
unfolding admission authorize_key_payout settle_amount limit_per_day
key_admitted = refl

admission-IsEntitled_example :
    IsEntitled settings ask_by_key morning stocked (by_key user_key) 100000
admission-IsEntitled_example =
    admission-IsEntitled settings ask_by_key morning stocked (by_key user_key) 100000 key_admitted

balanced_at_first : total (amount_on 10) stocked.claims ≡ spent_today 10 stocked
unfolding spent_today
balanced_at_first = refl

payout_locked-Balances_example :
    All IsDated (payout_locked settings (world_at morning) ask stocked).0.claims
    × (total (amount_on 10) (payout_locked settings (world_at morning) ask stocked).0.claims
        ≡ spent_today 10 (payout_locked settings (world_at morning) ask stocked).0)
payout_locked-Balances_example =
    payout_locked-Balances settings (world_at morning) ask stocked 10 (omega arith) tt
      balanced_at_first

payout_locked-IsRedeemedSoundly_example :
    IsAudited
      (payout_locked settings (world_at morning) ask_by_code stocked).0.codes
      (payout_locked settings (world_at morning) ask_by_code stocked).0.code_redemptions
    × IsOncePerAddress
        (payout_locked settings (world_at morning) ask_by_code stocked).0.code_redemptions
payout_locked-IsRedeemedSoundly_example =
    payout_locked-IsRedeemedSoundly settings (world_at morning) ask_by_code stocked (refl, tt)
      (λ id address. omega arith)

payout_locked-IsTallied_example :
    IsKeyTable (payout_locked settings (world_at morning) ask_by_key stocked).0.api_keys
    × All
        (IsTallied (payout_locked settings (world_at morning) ask_by_key stocked).0.key_payouts)
        (payout_locked settings (world_at morning) ask_by_key stocked).0.api_keys
payout_locked-IsTallied_example =
    payout_locked-IsTallied settings (world_at morning) ask_by_key stocked ((refl, tt), tt)
      ((refl, refl), tt)

token_accepted : (consume_cap_token "token" noon morning stocked).1 ≡ true
unfolding consume_cap_token
token_accepted = refl

consume_cap_token-once_example :
    (consume_cap_token "token" (noon + 1000) noon (
      after_all
        (call (payout settings (world_at morning) ask)
          ∷ look settings (world_at morning)
          ∷ burn "another" noon morning
          ∷ [])
        (consume_cap_token "token" noon morning stocked).0)).1
    ≡ false
consume_cap_token-once_example =
    consume_cap_token-once "token" noon morning noon (noon + 1000)
      (call (payout settings (world_at morning) ask)
        ∷ look settings (world_at morning)
        ∷ burn "another" noon morning
        ∷ [])
      stocked token_accepted (omega arith, (omega arith, (omega arith, tt))) (omega arith)
