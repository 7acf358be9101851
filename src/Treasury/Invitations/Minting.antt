-- ===== src/Treasury/Invitations/Minting.antt =====
-- `mintInvitation` of src/treasury.ts: a new voucher and the transaction that funds it.
use dash_faucet_cf.Base.{
  ℕ, String, Bool, true, false, ◌||◌, Option, none, some, List, [], ◌∷◌, ◌++◌, same, if◌then◌else◌,
  any,
}
use dash_faucet_cf.Config.{InvitationConfig}
use dash_faucet_cf.Db.{Db, InvitationRow, broadcast_unknown}
use dash_faucet_cf.Tx.{BuiltTx, TxError, Result, ok, err, FaucetKey, DashTx}
use dash_faucet_cf.Tx.Build.AssetLock.{build_invitation_asset_lock}
use dash_faucet_cf.Treasury.{Network, Snapshot}
use dash_faucet_cf.Treasury.Ledger.{spendable_utxos, record_spend}
use dash_faucet_cf.Treasury.Broadcast.{Settlement, settled, unsettled, threw, settle_broadcast}
use dash_faucet_cf.Treasury.Invitations.{Vault, update_voucher, as_awaiting, as_rejected}

-- What one mint gets from outside: the network's answers, the new key's hash (hex), its encrypted WIF
-- (`generateVoucherKey`, `encryptWif`) and `crypto.randomUUID()`.
pub record Coinage : Type 0 where
  pub network : Network
  pub public_key_hash : List ℕ
  pub cipher_hex : String
  pub iv_hex : String
  pub id : String

pub data MintRefusal : Type 0 where
  no_view rejected : MintRefusal
  unbuilt : TxError → MintRefusal

-- `lost` is a rejected promise.
pub data MintResult : Type 0 where
  minted : MintResult
  refused : MintRefusal → MintResult
  lost : MintResult

-- The row that is inserted before the broadcast.
abbrev pub new_voucher : InvitationConfig → Vault → Coinage → BuiltTx → ℕ → InvitationRow
new_voucher cfg vault c built now = record {
  id = c.id;
  txid = built.txid;
  built = built;
  cipher_hex = c.cipher_hex;
  iv_hex = c.iv_hex;
  prospective_identity_id = vault.identity_id built.txid;
  amount_sats = some cfg.amount_sats;
  state = broadcast_unknown;
  chain_locked_height = none;
  device_hash = none;
  issued_at = none;
  created_at = now;
  updated_at = now;
}

-- After the broadcast: the new row waits for its ChainLock, stays unknown, or fails.
unfoldable pub settle_voucher : Coinage → BuiltTx → ℕ → Db × Settlement → Db × MintResult
settle_voucher c built now (db, settled accepted) =
    (update_voucher c.id (as_awaiting now) (record_spend built now db), minted)
settle_voucher c built now (db, unsettled true why) = (
  update_voucher c.id (λ row. record row { state = broadcast_unknown; updated_at = now }) db,
  minted,
)
settle_voucher c built now (db, unsettled false why) =
    (update_voucher c.id (as_rejected now) db, refused rejected)
settle_voucher c built now (db, threw) = (db, lost)

-- A row with the new id or txid is in the way.
abbrev pub is_taken : String → String → InvitationRow → Bool
is_taken id txid row = same row.id id || same row.txid txid

unfoldable pub mint_built :
    InvitationConfig → Vault → Coinage → ℕ → Result BuiltTx → Db → Db × MintResult
unfolding settle_voucher
mint_built cfg vault c now (err e) db = (db, refused (unbuilt e))
mint_built cfg vault c now (ok built) db =
    if any (is_taken c.id built.txid) db.inventory
    then (db, lost)
    else settle_voucher c built now (
        settle_broadcast c.network built now
          record db { inventory = db.inventory ++ new_voucher cfg vault c built now ∷ [] })

unfoldable pub mint_view :
    InvitationConfig
    → Vault
    → DashTx
    → FaucetKey
    → Coinage
    → ℕ
    → Db × Option Snapshot
    → Db × MintResult
unfolding mint_built
mint_view cfg vault lib key c now (db, none) = (db, refused no_view)
mint_view cfg vault lib key c now (db, some view) =
    mint_built cfg vault c now
      (build_invitation_asset_lock lib key view.utxos c.public_key_hash cfg.amount_sats) db

-- `mintInvitation`; the faucet's key is `none` where its WIF does not load.
unfoldable pub mint_invitation :
    InvitationConfig → Vault → DashTx → Option FaucetKey → Coinage → ℕ → Db → Db × MintResult
unfolding mint_view
mint_invitation cfg vault lib none c now db = (db, lost)
mint_invitation cfg vault lib (some key) c now db =
    mint_view cfg vault lib key c now
      (spendable_utxos c.network (lib.create_pkh_script key.pub_key_hash) now db)
