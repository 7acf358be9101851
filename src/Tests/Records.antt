-- ===== src/Tests/Records.antt =====
-- Runs of the edits of API keys and codes, and of the payload, and their theorems there.
use dash_faucet_cf.Base.{
  ◌∷◌, [], ℕ, ◌≡◌, refl, false, ◌&&◌, not, none, some, List, any, filter, arith, length, drop,
}
use dash_faucet_cf.Base.Text.{codes}
use dash_faucet_cf.Tx.{ok}
use dash_faucet_cf.Tx.Build.Payload.{
  asset_lock_payload, payload_of, read_le, is_pub_key_hash, asset_lock_payload_lem,
}
use dash_faucet_cf.Treasury.Keys.{IssueInput, issue_own_key, revoke_api_key, is_null}
use dash_faucet_cf.Treasury.Keys.Owned.{
  IssueMeans, AreRevoked, in_reach, issue_own_key-IssueMeans, revoke_api_key-reaches,
}
use dash_faucet_cf.Accounts.{CodePatch, update_code}
use dash_faucet_cf.Accounts.Redeeming.{IsAudited, update_code-IsAudited}
use dash_faucet_cf.Db.{voucher}
use dash_faucet_cf.Accounts.{NewCodes, batch_of, create_codes}
use dash_faucet_cf.Accounts.Creating.{CreationMeans, HasUniqueKeys, create_codes-CreationMeans}
use dash_faucet_cf.Tests.{stocked}

abbrev another_key : IssueInput
another_key = record {
  who = "ann";
  label = none;
  max_active = 3;
  ttl_ms = 0;
  replacing = none;
  hash = "h2";
  id = "k2";
}

issue_own_key-IssueMeans_example :
    IssueMeans another_key none 5 stocked (issue_own_key another_key 5 stocked)
issue_own_key-IssueMeans_example = issue_own_key-IssueMeans another_key 5 stocked

revoke_api_key-reaches_example :
    (any
        (λ r. in_reach "k" (some "ann") r && is_null r.revoked_at)
        (revoke_api_key "k" (some "ann") none 5 stocked).0.api_keys
      ≡ false)
    × (filter
          (λ r. not (in_reach "k" (some "ann") r))
          (revoke_api_key "k" (some "ann") none 5 stocked).0.api_keys
        ≡ filter (λ r. not (in_reach "k" (some "ann") r)) stocked.api_keys)
    × AreRevoked "k"
        (some "ann")
        none
        5
        stocked.api_keys
        (revoke_api_key "k" (some "ann") none 5 stocked).0.api_keys
    × ((revoke_api_key "k" (some "ann") none 5 stocked).1
        ≡ any (λ r. in_reach "k" (some "ann") r && is_null r.revoked_at) stocked.api_keys)
revoke_api_key-reaches_example = revoke_api_key-reaches "k" (some "ann") none 5 stocked

abbrev more_uses : CodePatch
more_uses = record {
  label = none;
  amount_sats = none;
  max_redemptions = some 5;
  expires_at = none;
  disabled = none;
}

update_code-IsAudited_example :
    IsAudited
      (update_code "c" more_uses "bob" 5 stocked).0.codes
      (update_code "c" more_uses "bob" 5 stocked).0.code_redemptions
update_code-IsAudited_example = update_code-IsAudited "c" more_uses "bob" 5 stocked (refl, tt)

abbrev some_hash : List ℕ
some_hash = codes "00112233445566778899aabbccddeeff00112233"

encodes : asset_lock_payload some_hash 100000 ≡ ok (payload_of some_hash 100000)
unfolding asset_lock_payload is_pub_key_hash
encodes = refl

asset_lock_payload_lem_example :
    (length (payload_of some_hash 100000) ≡ 72)
    × (read_le 8 (drop 4 (payload_of some_hash 100000)) ≡ 100000)
asset_lock_payload_lem_example =
    asset_lock_payload_lem some_hash 100000 (payload_of some_hash 100000) encodes (omega arith)

abbrev two_vouchers : NewCodes
two_vouchers = record {
  kind = voucher;
  codes =
      record { id = "v1"; code = "ABC"; code_key = "abc" }
      ∷ record { id = "v2"; code = "DEF"; code_key = "def" }
      ∷ [];
  label = "gift";
  amount_sats = 1000;
  max_redemptions = 1;
  expires_at = none;
  created_by = "ann";
}

create_codes-CreationMeans_example :
    CreationMeans two_vouchers
      (batch_of two_vouchers.codes "batch")
      5
      stocked
      (create_codes two_vouchers "batch" 5 stocked)
    × HasUniqueKeys (create_codes two_vouchers "batch" 5 stocked).0.codes
create_codes-CreationMeans_example =
    create_codes-CreationMeans two_vouchers "batch" 5 stocked (refl, tt)
