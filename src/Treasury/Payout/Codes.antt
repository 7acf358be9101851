-- ===== src/Treasury/Payout/Codes.antt =====
-- The redemption codes over the payouts of `payoutLocked`.
use dash_faucet_cf.Base.{ℕ, List}
use dash_faucet_cf.Config.{FaucetConfig}
use dash_faucet_cf.Db.{Db, CodeRow, Redemption}
use dash_faucet_cf.Tx.{BuiltTx}
use dash_faucet_cf.Treasury.{World}
use dash_faucet_cf.Treasury.Ledger.{prune}
use dash_faucet_cf.Treasury.Admission.{PayoutRequest, Payer, public_faucet, by_key, by_code}
use dash_faucet_cf.Treasury.Keys.{record_key_payout}
use dash_faucet_cf.Accounts.Redeeming.{
  IsAudited, IsOncePerAddress, record_redemption-IsAudited, record_redemption-IsOncePerAddress,
}
use dash_faucet_cf.Treasury.Payout.{charge, record_claim, payout_locked}
use dash_faucet_cf.Treasury.Payout.Admit.{admission-IsEntitled}
use dash_faucet_cf.Treasury.Payout.Entitled.{IsEntitled}
use dash_faucet_cf.Treasury.Payout.Commit.{payout_locked-books}

abbrev IsRedeemedSoundly : List CodeRow → List Redemption → Type 0
IsRedeemedSoundly codes redemptions = IsAudited codes redemptions × IsOncePerAddress redemptions

charge-IsRedeemedSoundly :
    (cfg : FaucetConfig) (payer : Payer) (input : PayoutRequest) (built : BuiltTx)
    (satoshis now : ℕ) (db : Db)
    → IsEntitled cfg input now db payer satoshis
    → IsRedeemedSoundly db.codes db.code_redemptions
    → IsRedeemedSoundly
        (charge payer input built satoshis now db).codes
        (charge payer input built satoshis now db).code_redemptions
unfolding charge record_claim record_key_payout
charge-IsRedeemedSoundly cfg public_faucet input built satoshis now db entitled h = h
charge-IsRedeemedSoundly cfg (by_key key) input built satoshis now db entitled h = h
charge-IsRedeemedSoundly cfg (by_code code) input built satoshis now db
      (code_key, e, amount, (found, enabled, unexpired, left, fresh)) (audited, once) =
    (
      record_redemption-IsAudited code input.address built.txid satoshis now db audited,
      record_redemption-IsOncePerAddress code input.address built.txid satoshis now db fresh once,
    )

-- Where every code's counter equals its redemptions on record and no address is on record twice
-- for a code, both hold after a payout, whoever pays.
pub payout_locked-IsRedeemedSoundly :
    (cfg : FaucetConfig) (w : World) (input : PayoutRequest) (db : Db)
    → IsAudited db.codes db.code_redemptions
    → IsOncePerAddress db.code_redemptions
    → IsAudited
        (payout_locked cfg w input db).0.codes
        (payout_locked cfg w input db).0.code_redemptions
      × IsOncePerAddress (payout_locked cfg w input db).0.code_redemptions
unfolding prune
payout_locked-IsRedeemedSoundly cfg w input db audited once =
    payout_locked-books (λ b. IsRedeemedSoundly b.codes b.code_redemptions) cfg w input db
      (audited, once)
      (λ payer satoshis built e.
        charge-IsRedeemedSoundly cfg payer input built satoshis w.now (prune cfg w.now db)
          (admission-IsEntitled cfg input w.now (prune cfg w.now db) payer satoshis e)
          (audited, once))
