-- ===== src/Treasury/Invitations.antt =====
-- The inventory of invitation vouchers in src/treasury.ts: the changes that the handlers make to a
-- row, `backfillInvitationAmounts` and `invitationCounts`.
pub mod Issuing
pub mod Minting
pub mod Tending
pub mod Rows
pub mod Recorded
pub mod Remembered
pub mod Reclaiming
pub mod Lifecycle
pub mod Evolving
pub mod Ending
use dash_faucet_cf.Base.{
  ℕ, suc, ◌+◌, String, Bool, true, false, ◌&&◌, Option, none, some, List, ◌==◌, same, total,
}
use dash_faucet_cf.Base.Int.{ℤ, pos, negsuc, sub_ℕ}
use dash_faucet_cf.Config.{InvitationConfig}
use dash_faucet_cf.Chain.{ChainLockStatus}
use dash_faucet_cf.Db.{
  Db, InvitationRow, VoucherState, broadcast_unknown, awaiting_chainlock, available, issued,
  claimed, failed,
}
use dash_faucet_cf.Db.Sql.{update_where, count_where}
use dash_faucet_cf.Tx.{BuiltTx}

-- What one call gets from src/platform.ts, src/invitation.ts and the chain client:
-- `platformIdentityExists`, `decryptWif`, `invitationUri`, `prospectiveIdentityId` and
-- `getChainLockStatus`. `none` is null, or a call that throws.
pub record Vault : Type 0 where
  pub identity_exists : String → Option Bool
  pub decrypt_wif : String → String → Option String
  pub invitation_uri : String → String → String
  pub identity_id : String → String
  pub chain_lock_status : String → Option ChainLockStatus

abbrev pub is_state : VoucherState → VoucherState → Bool
is_state broadcast_unknown broadcast_unknown = true
is_state awaiting_chainlock awaiting_chainlock = true
is_state available available = true
is_state issued issued = true
is_state claimed claimed = true
is_state failed failed = true
is_state s t = false

abbrev pub in_state : VoucherState → InvitationRow → Bool
in_state s row = is_state s row.state

-- `amount_sats = ?`; NULL equals nothing.
abbrev pub of_amount : ℕ → InvitationRow → Bool
of_amount satoshis row = elim (row.amount_sats) [ none ↦ false | some a ↦ a == satoshis ]

abbrev pub has_voucher_id : String → InvitationRow → Bool
has_voucher_id id row = same row.id id

-- `UPDATE invitation_inventory SET ... WHERE id = ?`
abbrev pub update_voucher : String → (InvitationRow → InvitationRow) → Db → Db
update_voucher id f db = record db { inventory = update_where (has_voucher_id id) f db.inventory }

-- The changes to a row.
abbrev pub as_claimed : ℕ → InvitationRow → InvitationRow
as_claimed now row = record row { state = claimed; cipher_hex = ""; iv_hex = ""; updated_at = now }

abbrev pub as_unreadable : ℕ → InvitationRow → InvitationRow
as_unreadable now row = record row { state = failed; updated_at = now }

abbrev pub as_issued : String → ℕ → InvitationRow → InvitationRow
as_issued device now row = record row {
  state = issued;
  device_hash = some device;
  issued_at = some now;
  updated_at = now;
}

abbrev pub as_recycled : ℕ → InvitationRow → InvitationRow
as_recycled now row = record row {
  state = available;
  device_hash = none;
  issued_at = none;
  updated_at = now;
}

abbrev pub as_locked : ℕ → ℕ → InvitationRow → InvitationRow
as_locked height now row = record row {
  state = available;
  chain_locked_height = some height;
  updated_at = now;
}

abbrev pub as_awaiting : ℕ → InvitationRow → InvitationRow
as_awaiting now row = record row { state = awaiting_chainlock; updated_at = now }

abbrev pub as_rejected : ℕ → InvitationRow → InvitationRow
as_rejected now row = record row { state = failed; cipher_hex = ""; iv_hex = ""; updated_at = now }

-- `voucherAmount`: `totalIn - fee - change`, where the fee is signed.
unfoldable pub voucher_amount : BuiltTx → ℤ
voucher_amount built =
    let change = total (λ o. o.satoshis) built.own_outputs in
    elim (built.fee) [
      | pos f ↦ sub_ℕ built.total_in (f + change)
      | negsuc f ↦ sub_ℕ (built.total_in + suc f) change
    ]

-- A negative amount, which no built transaction has, is equal to no setting, and stands as NULL.
abbrev pub amount_of : BuiltTx → Option ℕ
amount_of built = elim (voucher_amount built) [ pos a ↦ some a | negsuc a ↦ none ]

abbrev pub has_no_amount : InvitationRow → Bool
has_no_amount row = elim (row.amount_sats) [ none ↦ true | some a ↦ false ]

-- `backfillInvitationAmounts`: one row at a time; a row's amount does not depend on another row.
unfoldable pub backfill_invitation_amounts : Db → Db
backfill_invitation_amounts db = record db {
  inventory =
      update_where has_no_amount (λ row. record row { amount_sats = amount_of row.built })
        db.inventory;
}

pub record Counts : Type 0 where
  pub available : ℕ
  pub preparing : ℕ
  pub issued : ℕ

abbrev pub count_state : ℕ → VoucherState → List InvitationRow → ℕ
count_state satoshis s rows = count_where (λ row. in_state s row && of_amount satoshis row) rows

-- `invitationCounts`
unfoldable pub invitation_counts : InvitationConfig → Db → Counts
invitation_counts cfg db = record {
  available = count_state cfg.amount_sats available db.inventory;
  preparing =
      count_state cfg.amount_sats broadcast_unknown db.inventory
      + count_state cfg.amount_sats awaiting_chainlock db.inventory;
  issued = count_state cfg.amount_sats issued db.inventory;
}
