-- ===== src/Treasury/Payout/Tallies.antt =====
-- The API keys' counters over the payouts of `payoutLocked`.
use dash_faucet_cf.Base.{ℕ, List, All}
use dash_faucet_cf.Config.{FaucetConfig}
use dash_faucet_cf.Db.{Db, ApiKeyRow, KeyPayout}
use dash_faucet_cf.Tx.{BuiltTx}
use dash_faucet_cf.Treasury.{World}
use dash_faucet_cf.Treasury.Ledger.{prune}
use dash_faucet_cf.Treasury.Admission.{PayoutRequest, Payer, public_faucet, by_key, by_code}
use dash_faucet_cf.Treasury.Keys.Limits.{
  IsTallied, IsKeyTable, record_key_payout-IsKeyTable, record_key_payout-IsTallied,
}
use dash_faucet_cf.Accounts.{record_redemption}
use dash_faucet_cf.Treasury.Payout.{charge, record_claim, payout_locked}
use dash_faucet_cf.Treasury.Payout.Admit.{admission-IsEntitled}
use dash_faucet_cf.Treasury.Payout.Entitled.{IsEntitled}
use dash_faucet_cf.Treasury.Payout.Commit.{payout_locked-books}

abbrev IsKeyedSoundly : List ApiKeyRow → List KeyPayout → Type 0
IsKeyedSoundly rows payouts = IsKeyTable rows × All (IsTallied payouts) rows

charge-IsKeyedSoundly :
    (cfg : FaucetConfig) (payer : Payer) (input : PayoutRequest) (built : BuiltTx)
    (satoshis now : ℕ) (db : Db)
    → IsEntitled cfg input now db payer satoshis
    → IsKeyedSoundly db.api_keys db.key_payouts
    → IsKeyedSoundly
        (charge payer input built satoshis now db).api_keys
        (charge payer input built satoshis now db).key_payouts
unfolding charge record_claim record_redemption
charge-IsKeyedSoundly cfg public_faucet input built satoshis now db entitled h = h
charge-IsKeyedSoundly cfg (by_code code) input built satoshis now db entitled h = h
charge-IsKeyedSoundly cfg (by_key key) input built satoshis now db
      (hash, given, (found, enabled, live, amount, left)) (keyed, tallied) =
    (
      record_key_payout-IsKeyTable key built.txid input.address satoshis now db keyed,
      record_key_payout-IsTallied hash key built.txid input.address satoshis now db found keyed
          tallied,
    )

-- Where hash and id name the same rows and every key's two counters equal the number and the total
-- of its payouts on record, all of it holds after a payout, whoever pays.
pub payout_locked-IsTallied :
    (cfg : FaucetConfig) (w : World) (input : PayoutRequest) (db : Db)
    → IsKeyTable db.api_keys
    → All (IsTallied db.key_payouts) db.api_keys
    → IsKeyTable (payout_locked cfg w input db).0.api_keys
      × All
          (IsTallied (payout_locked cfg w input db).0.key_payouts)
          (payout_locked cfg w input db).0.api_keys
unfolding prune
payout_locked-IsTallied cfg w input db keyed tallied =
    payout_locked-books (λ b. IsKeyedSoundly b.api_keys b.key_payouts) cfg w input db
      (keyed, tallied)
      (λ payer satoshis built e.
        charge-IsKeyedSoundly cfg payer input built satoshis w.now (prune cfg w.now db)
          (admission-IsEntitled cfg input w.now (prune cfg w.now db) payer satoshis e)
          (keyed, tallied))
