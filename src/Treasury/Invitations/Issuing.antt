-- ===== src/Treasury/Invitations/Issuing.antt =====
-- `issueInvitation` of src/treasury.ts: vouchers for a device, as many as it asks for and may have.
pub mod Rounds
pub mod Hits
pub mod Window
pub mod Looped
pub mod Handed
use dash_faucet_cf.Base.{
  ℕ, zero, suc, ◌+◌, ◌-◌, String, Bool, true, false, ◌&&◌, ◌||◌, Option, none, some, List, [], ◌∷◌,
  ◌++◌, ltb, leb, same, if◌then◌else◌, filter, length, take, min, max,
}
use dash_faucet_cf.Base.Sort.{sort}
use dash_faucet_cf.Config.{FaucetConfig, InvitationConfig}
use dash_faucet_cf.Db.{
  Db, InvitationRow, InvitationHit, HitKind, by_ip, by_device, available, issued,
}
use dash_faucet_cf.Db.Sql.{count_where, min_or, retry_seconds}
use dash_faucet_cf.Treasury.Ledger.{prune}
use dash_faucet_cf.Treasury.Broadcast.{is_empty}
use dash_faucet_cf.Treasury.Invitations.{
  Vault, in_state, of_amount, update_voucher, as_claimed, as_unreadable, as_issued,
}

-- `InvitationIssueRequest`; a count is a positive number of the API.
pub record IssueRequest : Type 0 where
  pub ip_hash : String
  pub device_hash : String
  pub count : Option ℕ

-- `IssuedInvitation`
pub record Invitation : Type 0 where
  pub uri : String
  pub txid : String
  pub expires_at : ℕ

-- `InvitationIssueResult`; `unopened` is the error of a voucher that does not decrypt.
pub data IssueResult : Type 0 where
  handed : List Invitation → Bool → IssueResult
  rate_limited : ℕ → IssueResult
  unavailable platform_unavailable unopened : IssueResult

-- `openVoucher`
abbrev pub open_voucher : Vault → InvitationRow → ℕ → Option Invitation
open_voucher vault row expires_at = elim (vault.decrypt_wif row.cipher_hex row.iv_hex) [
  | none ↦ none
  | some wif ↦
      some
        record { uri = vault.invitation_uri row.txid wif; txid = row.txid; expires_at = expires_at }
]

-- `row.issued_at!`; an issued row has a time.
abbrev pub issued_time : InvitationRow → ℕ
issued_time row = elim (row.issued_at) [ none ↦ 0 | some t ↦ t ]

-- The rows that were issued to the device and have not expired, the newest first.
abbrev pub was_issued_to : InvitationConfig → String → ℕ → InvitationRow → Bool
was_issued_to cfg device now row =
    in_state issued row
    && (elim (row.device_hash) [ none ↦ false | some d ↦ same d device ])
    && (elim (row.issued_at) [ none ↦ false | some t ↦ ltb now (t + cfg.ttl_ms) ])

abbrev pub prior_vouchers : InvitationConfig → String → ℕ → Db → List InvitationRow
prior_vouchers cfg device now db =
    sort (λ a b. leb (issued_time b) (issued_time a))
      (filter (was_issued_to cfg device now) db.inventory)

-- The loop that opens them again; `none` is a decryption that throws.
unfoldable pub open_all : InvitationConfig → Vault → List InvitationRow → Option (List Invitation)
open_all cfg vault [] = some []
open_all cfg vault (row ∷ rows) =
    let rest = open_all cfg vault rows in
    elim (open_voucher vault row (issued_time row + cfg.ttl_ms)) [
      | none ↦ none
      | some i ↦ elim rest [ none ↦ none | some is ↦ some (i ∷ is) ]
    ]

abbrev pub is_kind : HitKind → HitKind → Bool
is_kind by_ip by_ip = true
is_kind by_device by_device = true
is_kind k l = false

-- The hits of a kind and a value in the window before `now`.
abbrev pub hits_of : InvitationConfig → HitKind → String → ℕ → Db → List InvitationHit
hits_of cfg kind value now db =
    filter
      (λ h.
        is_kind h.kind kind
        && same h.value_hash value
        && ltb now (h.created_at + cfg.rate_window_ms))
      db.invitation_hits

-- The wait that the hits of one kind ask for, 0 where there is none.
abbrev pub wait_of : InvitationConfig → HitKind → String → ℕ → Db → ℕ
wait_of cfg kind value now db =
    let hits = hits_of cfg kind value now db in
    if is_empty hits
    then 0
    else retry_seconds (min_or now (λ h. h.created_at) hits + cfg.rate_window_ms - now)

abbrev pub retry_after : InvitationConfig → IssueRequest → ℕ → Db → ℕ
retry_after cfg input now db =
    max (wait_of cfg by_ip input.ip_hash now db) (wait_of cfg by_device input.device_hash now db)

-- The vouchers that the loop has opened, with its two flags.
pub record Handing : Type 0 where
  pub invitations : List Invitation
  pub explorer_down : Bool
  pub decrypt_failed : Bool

-- What is done with a candidate: whether Platform knows its identity, and the voucher as it opens.
unfoldable pub offer_with :
    String → ℕ → InvitationRow → Option Bool → Option Invitation → Db × Handing → Db × Handing
offer_with device now row none opened (db, h) = (db, record h { explorer_down = true })
offer_with device now row (some true) opened (db, h) =
    (update_voucher row.id (as_claimed now) db, h)
offer_with device now row (some false) none (db, h) =
    (update_voucher row.id (as_unreadable now) db, record h { decrypt_failed = true })
offer_with device now row (some false) (some i) (db, h) = (
  update_voucher row.id (as_issued device now) db,
  record h { invitations = h.invitations ++ i ∷ [] },
)

-- The body of the loop over the candidates, for one of them.
unfoldable pub offer_voucher :
    InvitationConfig → Vault → String → ℕ → InvitationRow → Db × Handing → Db × Handing
unfolding offer_with
offer_voucher cfg vault device now row s =
    offer_with device now row (vault.identity_exists row.prospective_identity_id)
      (open_voucher vault row (now + cfg.ttl_ms)) s

unfoldable pub offer_all :
    InvitationConfig → Vault → String → ℕ → List InvitationRow → Db × Handing → Db × Handing
offer_all cfg vault device now [] s = s
offer_all cfg vault device now (row ∷ rows) s =
    offer_all cfg vault device now rows (offer_voucher cfg vault device now row s)

abbrev pub is_ready : InvitationConfig → InvitationRow → Bool
is_ready cfg row = in_state available row && of_amount cfg.amount_sats row

-- `... ORDER BY created_at LIMIT ?`
abbrev pub candidates : InvitationConfig → ℕ → Db → List InvitationRow
candidates cfg limit db =
    take limit (sort (λ a b. leb a.created_at b.created_at) (filter (is_ready cfg) db.inventory))

-- `invitations.length >= count || explorerDown`
abbrev pub is_done : ℕ → Handing → Bool
is_done count h = leb count (length h.invitations) || h.explorer_down

-- The `while` loop, on fuel: every round takes a row out of the inventory or stops the loop.
unfoldable pub hand_out :
    InvitationConfig → Vault → String → ℕ → ℕ → ℕ → Db × Handing → Db × Handing
hand_out cfg vault device now count zero s = s
hand_out cfg vault device now count (suc fuel) (db, h) =
    let rows = candidates cfg (count - length h.invitations) db in
    elim (is_done count h || is_empty rows) [
      | true ↦ (db, h)
      | false ↦
          hand_out cfg vault device now count fuel (offer_all cfg vault device now rows (db, h))
    ]

-- One round for each available row, and one that finds nothing left.
abbrev pub rounds : Db → ℕ
rounds db = suc (count_where (in_state available) db.inventory)

-- `Math.max(1, Math.min(input.count ?? 1, cfg.maxPerRequest))`
abbrev pub wanted : InvitationConfig → IssueRequest → ℕ
wanted cfg input = max 1 (min (elim (input.count) [ none ↦ 1 | some n ↦ n ]) cfg.max_per_request)

abbrev pub hit_of : HitKind → String → ℕ → InvitationHit
hit_of kind value now = record { kind = kind; value_hash = value; created_at = now }

-- What is answered after the loop; a batch is one hit.
unfoldable pub conclude_issue : IssueRequest → ℕ → Db × Handing → Db × IssueResult
conclude_issue input now (db, h) =
    if is_empty h.invitations
    then (
      db,
      if h.explorer_down
          then platform_unavailable
          else if h.decrypt_failed
          then unopened
          else unavailable,
    )
    else (
      record db {
        invitation_hits =
            db.invitation_hits
            ++ hit_of by_ip input.ip_hash now ∷ hit_of by_device input.device_hash now ∷ [];
      },
      handed h.invitations false,
    )

abbrev pub nothing_yet : Handing
nothing_yet = record { invitations = []; explorer_down = false; decrypt_failed = false }

unfoldable pub issue_fresh : InvitationConfig → Vault → IssueRequest → ℕ → Db → Db × IssueResult
unfolding hand_out offer_all offer_voucher conclude_issue
issue_fresh cfg vault input now db =
    conclude_issue input now
      (hand_out cfg vault input.device_hash now (wanted cfg input) (rounds db) (db, nothing_yet))

-- The vouchers of a device are answered again while they last.
unfoldable pub replay_vouchers : InvitationConfig → Vault → List InvitationRow → IssueResult
unfolding open_all
replay_vouchers cfg vault rows = elim (open_all cfg vault rows) [
  | none ↦ unopened
  | some is ↦ handed is true
]

-- After `prune`: with a rate window, first the replay and then the limit.
unfoldable pub issue_pruned : InvitationConfig → Vault → IssueRequest → ℕ → Db → Db × IssueResult
unfolding issue_fresh replay_vouchers
issue_pruned cfg vault input now db =
    let prior = prior_vouchers cfg input.device_hash now db in
    let wait = retry_after cfg input now db in
    if ltb 0 cfg.rate_window_ms
    then (if is_empty prior
        then (if ltb 0 wait then (db, rate_limited wait) else issue_fresh cfg vault input now db)
        else (db, replay_vouchers cfg vault prior))
    else issue_fresh cfg vault input now db

-- `issueInvitationLocked`
unfoldable pub issue_invitation : FaucetConfig → Vault → IssueRequest → ℕ → Db → Db × IssueResult
unfolding issue_pruned
issue_invitation cfg vault input now db =
    if cfg.invitations.enabled
    then issue_pruned cfg.invitations vault input now (prune cfg now db)
    else (db, unavailable)
