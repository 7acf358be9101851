-- ===== src/Tests/Vouchers.antt =====
-- Runs of the handlers of invitation vouchers, and their theorems there.
use dash_faucet_cf.Base.{◌+◌, ◌≡◌, refl, inl, true, false, none, some, List, [], ◌∷◌, arith}
use dash_faucet_cf.Base.Int.{pos}
use dash_faucet_cf.Base.Sort.{sort, insert_sorted}
use dash_faucet_cf.Config.{FaucetConfig}
use dash_faucet_cf.Db.{Db, empty_db, InvitationRow, available, claimed, issued}
use dash_faucet_cf.Tx.{BuiltTx}
use dash_faucet_cf.Treasury.Ledger.{prune}
use dash_faucet_cf.Treasury.Invitations.{Vault}
use dash_faucet_cf.Treasury.Invitations.Rows.{HasUniqueIds}
use dash_faucet_cf.Treasury.Invitations.Issuing.{
  IssueRequest, Invitation, handed, issue_invitation, issue_pruned, issue_fresh, hand_out, rounds,
  nothing_yet, offer_all, offer_voucher, offer_with, conclude_issue,
}
use dash_faucet_cf.Treasury.Invitations.Issuing.Rounds.{IsEnded, hand_out-ends}
use dash_faucet_cf.Treasury.Invitations.Issuing.Window.{issue_invitation-waits}
use dash_faucet_cf.Treasury.Invitations.Issuing.Hits.{IsHeldBack}
use dash_faucet_cf.Treasury.Invitations.Issuing.Handed.{IsBatch, issue_invitation-IsBatch}
use dash_faucet_cf.Treasury.Invitations.Ending.{Call, issue, pay, perform_all}
use dash_faucet_cf.Tests.{settings, world_at, morning, noon, ask}

abbrev inviting : FaucetConfig
inviting = record settings {
  invitations = record {
    enabled = true;
    amount_sats = 3000000;
    inventory_target = 2;
    max_per_request = 5;
    ttl_ms = 1000000;
    rate_window_ms = 500000;
  };
}

abbrev funding : BuiltTx
funding = record {
  hex = "hex";
  txid = "t7";
  inputs = [];
  own_outputs = [];
  fee = pos 300;
  total_in = 3000300;
}

abbrev ready_voucher : InvitationRow
ready_voucher = record {
  id = "v1";
  txid = "t7";
  built = funding;
  cipher_hex = "c0";
  iv_hex = "00";
  prospective_identity_id = "id7";
  amount_sats = some 3000000;
  state = available;
  chain_locked_height = some 300;
  device_hash = none;
  issued_at = none;
  created_at = 10;
  updated_at = 10;
}

abbrev shelf : Db
shelf = record empty_db { inventory = ready_voucher ∷ [] }

-- Platform knows no identity, and every secret opens.
abbrev vault : Vault
vault = record {
  identity_exists = λ id. some false;
  decrypt_wif = λ cipher iv. some "wif";
  invitation_uri = λ txid wif. txid;
  identity_id = λ txid. txid;
  chain_lock_status = λ txid. none;
}

abbrev by_phone : IssueRequest
by_phone = record { ip_hash = "ip"; device_hash = "phone"; count = some 2 }

abbrev by_laptop : IssueRequest
by_laptop = record { ip_hash = "ip"; device_hash = "laptop"; count = none }

abbrev batch : List Invitation
batch = record { uri = "t7"; txid = "t7"; expires_at = 1000000 + morning } ∷ []

issues : (issue_invitation inviting vault by_phone morning shelf).1 ≡ handed batch false
unfolding issue_invitation issue_pruned issue_fresh hand_out offer_all offer_voucher offer_with
    conclude_issue prune sort insert_sorted
issues = refl

shelf-HasUniqueIds : HasUniqueIds shelf.inventory
shelf-HasUniqueIds id = ground arith

issue_invitation-IsBatch_example :
    IsBatch inviting.invitations vault by_phone morning shelf.inventory
      (issue_invitation inviting vault by_phone morning shelf).0.inventory
      batch
issue_invitation-IsBatch_example =
    issue_invitation-IsBatch inviting vault by_phone morning shelf batch shelf-HasUniqueIds issues

abbrev by_neighbour : IssueRequest
by_neighbour = record { ip_hash = "next door"; device_hash = "tablet"; count = none }

-- Somebody else asks for a voucher, and a payout is made, before the laptop asks.
abbrev meanwhile : List Call
meanwhile =
    issue inviting vault by_neighbour (morning + 1000) ∷ pay inviting (world_at morning) ask ∷ []

issue_invitation-waits_example :
    ((issue_invitation inviting vault by_laptop
        (morning + 499999)
        (perform_all meanwhile (issue_invitation inviting vault by_phone morning shelf).0)).0
      ≡ prune inviting
          (morning + 499999)
          (perform_all meanwhile (issue_invitation inviting vault by_phone morning shelf).0))
    × IsHeldBack
        (issue_invitation inviting vault by_laptop
          (morning + 499999)
          (perform_all meanwhile (issue_invitation inviting vault by_phone morning shelf).0)).1
issue_invitation-waits_example =
    issue_invitation-waits inviting vault vault by_phone by_laptop morning (morning + 499999) shelf
      batch meanwhile issues (omega arith) (omega arith) (inl refl)
      ((omega arith, refl), ((omega arith, refl), tt))

hand_out-ends_example :
    IsEnded inviting.invitations vault "phone" morning 2
      (hand_out inviting.invitations vault "phone" morning 2 (rounds shelf) (shelf, nothing_yet))
hand_out-ends_example =
    hand_out-ends inviting.invitations vault "phone" morning 2 shelf shelf-HasUniqueIds

abbrev calls : List Call
calls = issue inviting vault by_phone morning ∷ pay inviting (world_at noon) ask ∷ []

-- A voucher that was claimed, beside one that is ready.
abbrev claimed_voucher : InvitationRow
claimed_voucher = record ready_voucher { id = "v0"; txid = "t0"; state = claimed }

abbrev half_empty : Db
half_empty = record empty_db { inventory = claimed_voucher ∷ ready_voucher ∷ [] }

-- A voucher that was handed out in the morning, beside one that is ready.
abbrev lent_voucher : InvitationRow
lent_voucher = record ready_voucher {
  id = "v0";
  txid = "t0";
  state = issued;
  issued_at = some morning;
}

abbrev half_lent : Db
half_lent = record empty_db { inventory = lent_voucher ∷ ready_voucher ∷ [] }
