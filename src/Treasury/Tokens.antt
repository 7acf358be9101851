-- ===== src/Treasury/Tokens.antt =====
-- `consumeCapToken` of src/treasury.ts: a capToken that the captcha has signed is spent here, between
-- the payouts, without the spending lock.
use dash_faucet_cf.Base.{
  ℕ, ◌≤◌, ◌≡◌, refl, sym, ◌∙◌, ap, subst, Option, none, some, Bool, true, false, ◌&&◌, String, List,
  [], ◌∷◌, ◌++◌, leb, same, same_refl, any, filter, arith, Bool-cases, inl, inr, if◌then◌else◌, All,
}
use dash_faucet_cf.Config.{FaucetConfig}
use dash_faucet_cf.Db.{Db, UsedCap, InvitationHit}
use dash_faucet_cf.Db.Sql.{any-append, any-append_self}
use dash_faucet_cf.Tx.{BuiltTx, FaucetKey}
use dash_faucet_cf.Treasury.{World, Snapshot}
use dash_faucet_cf.Treasury.Ledger.{prune, spendable_utxos}
use dash_faucet_cf.Treasury.Keys.{record_key_payout}
use dash_faucet_cf.Accounts.{record_redemption}
use dash_faucet_cf.Treasury.Admission.{
  PayoutRequest, Payer, public_faucet, by_key, by_code, admission, admit,
}
use dash_faucet_cf.Treasury.Payout.{charge, record_claim, payout_locked}
use dash_faucet_cf.Treasury.Payout.Commit.{payout_locked-books}
use dash_faucet_cf.Treasury.Books.{Books, spendable_utxos-books}
use dash_faucet_cf.Treasury.Maintenance.Own.{maintain-IsOwnAffair}
use dash_faucet_cf.Treasury.Status.{Overview, overview_from, snapshot}
use dash_faucet_cf.Treasury.Invitations.{backfill_invitation_amounts}
use dash_faucet_cf.Treasury.Invitations.Issuing.{issue_invitation}
use dash_faucet_cf.Treasury.Invitations.Tending.{maintain_invitations}
use dash_faucet_cf.Treasury.Invitations.Ending.{Call, issue, tend, pay, upkeep, perform}
use dash_faucet_cf.Treasury.Invitations.Recorded.{tend_inventory-records}
use dash_faucet_cf.Treasury.Invitations.Recorded.Issued.{issue_pruned-used_cap}
use dash_faucet_cf.Treasury.Invitations.Remembered

abbrev pub unexpired : ℕ → UsedCap → Bool
unexpired now r = leb now r.expires_at

abbrev pub has_token : String → UsedCap → Bool
has_token token r = same r.token token

-- `consumeCapToken`: the tables after it, and whether the token was fresh.
unfoldable pub consume_cap_token : String → ℕ → ℕ → Db → Db × Bool
consume_cap_token token expires_at now db =
    let kept = filter (unexpired now) db.used_cap in
    if any (has_token token) kept then (record db { used_cap = kept }, false) else (
      record db { used_cap = kept ++ record { token = token; expires_at = expires_at } ∷ [] },
      true,
    )

-- What may come between two uses of a token.
pub data Event : Type 0 where
  call : Call → Event
  look : FaucetConfig → World → Event
  burn : String → ℕ → ℕ → Event

abbrev pub time_of : Event → ℕ
time_of (call c) = Remembered.time_of c
time_of (look cfg w) = w.now
time_of (burn token expires_at now) = now

abbrev pub happen : Event → Db → Db
happen (call c) db = perform c db
happen (look cfg w) db = (snapshot cfg w db).0
happen (burn token expires_at now) db = (consume_cap_token token expires_at now db).0

unfoldable pub after_all : List Event → Db → Db
after_all [] db = db
after_all (e ∷ es) db = after_all es (happen e db)

-- The token is on record until the time.
abbrev IsBurned : String → ℕ → List UsedCap → Type 0
IsBurned token until used = any (λ r. has_token token r && leb until r.expires_at) used ≡ true

filter-IsBurned :
    (token : String) (until now : ℕ) (used : List UsedCap)
    → now ≤ until
    → IsBurned token until used
    → IsBurned token until (filter (unexpired now) used)
filter-IsBurned token until now [] le h = absurd (cc)
filter-IsBurned token until now (r ∷ used) le h =
    ground (arith, filter-IsBurned token until now used le)

burned-any :
    (token : String) (until : ℕ) (used : List UsedCap)
    → IsBurned token until used
    → any (has_token token) used ≡ true
burned-any token until [] h = absurd (cc)
burned-any token until (r ∷ used) h = ground (arith, burned-any token until used)

consume-IsBurned :
    (token other : String) (until expires_at now : ℕ) (db : Db)
    → now ≤ until
    → IsBurned token until db.used_cap
    → IsBurned token until (consume_cap_token other expires_at now db).0.used_cap
unfolding consume_cap_token
consume-IsBurned token other until expires_at now db le h =
    elim (Bool-cases (any (has_token other) (filter (unexpired now) db.used_cap))) [
      | inl seen ↦ rw seen (filter-IsBurned token until now db.used_cap le h)
      | inr fresh ↦ rw fresh (
          any-append (λ r. has_token token r && leb until r.expires_at)
            (filter (unexpired now) db.used_cap) _
            (filter-IsBurned token until now db.used_cap le h))
    ]

payout-IsBurned :
    (cfg : FaucetConfig) (w : World) (input : PayoutRequest) (token : String) (until : ℕ) (db : Db)
    → w.now ≤ until
    → IsBurned token until db.used_cap
    → IsBurned token until (payout_locked cfg w input db).0.used_cap
unfolding prune charge record_claim record_key_payout record_redemption
payout-IsBurned cfg w input token until db le h =
    payout_locked-books (λ b. IsBurned token until b.used_cap) cfg w input db pruned charged
  where
    pruned : IsBurned token until (prune cfg w.now db).used_cap
    pruned = filter-IsBurned token until w.now db.used_cap le h

    charged :
        (payer : Payer) (satoshis : ℕ) (built : BuiltTx)
        → admission cfg input w.now (prune cfg w.now db) ≡ admit payer satoshis
        → IsBurned token until
            (charge payer input built satoshis w.now (prune cfg w.now db)).used_cap
    charged public_faucet satoshis built e = pruned
    charged (by_key key) satoshis built e = pruned
    charged (by_code code) satoshis built e = pruned

prune-IsBurned :
    (token : String) (until : ℕ) (cfg : FaucetConfig) (now : ℕ) (db : Db)
    → now ≤ until
    → IsBurned token until db.used_cap
    → IsBurned token until (prune cfg now db).used_cap
unfolding prune
prune-IsBurned token until cfg now db le h = filter-IsBurned token until now db.used_cap le h

if-IsBurned {ℓ} :
    {A : Type ℓ} (token : String) (until : ℕ) (b : Bool) (x y : Db × A)
    → IsBurned token until x.0.used_cap
    → IsBurned token until y.0.used_cap
    → IsBurned token until (if b then x else y).0.used_cap
if-IsBurned token until true x y h k = h
if-IsBurned token until false x y h k = k

perform-IsBurned :
    (c : Call) (token : String) (until : ℕ) (db : Db)
    → Remembered.time_of c ≤ until
    → IsBurned token until db.used_cap
    → IsBurned token until (perform c db).used_cap
unfolding issue_invitation maintain_invitations backfill_invitation_amounts
perform-IsBurned (issue cfg vault input now) token until db le h =
    if-IsBurned token until cfg.invitations.enabled _ _
      (subst (IsBurned token until)
        (sym (issue_pruned-used_cap cfg.invitations vault input now (prune cfg now db)))
        (prune-IsBurned token until cfg now db le h))
      h
perform-IsBurned (tend cfg w vault coinage) token until db le h =
    if-IsBurned token until cfg.invitations.enabled _ _
      (if-IsBurned token until cfg.dry_run _ _ h (
        subst (IsBurned token until)
          (sym (
            ap (λ (r : List InvitationHit × List UsedCap). r.1)
              (tend_inventory-records cfg.invitations w vault coinage
                (backfill_invitation_amounts (prune cfg w.now db)))))
          (prune-IsBurned token until cfg w.now db le h)))
      h
perform-IsBurned (pay cfg w input) token until db le h =
    payout-IsBurned cfg w input token until db le h
perform-IsBurned (upkeep cfg w) token until db le h =
    subst (IsBurned token until)
      (sym (ap (λ (b : Books). b.used_cap) (maintain-IsOwnAffair cfg w db).0))
      (prune-IsBurned token until cfg w.now db le h)

overview_from-used_cap :
    (cfg : FaucetConfig) (w : World) (key : FaucetKey) (s : Db × Option Snapshot)
    → (overview_from cfg w key s).0.used_cap ≡ s.0.used_cap
unfolding overview_from
overview_from-used_cap cfg w key (db, none) = refl
overview_from-used_cap cfg w key (db, some view) = refl

snapshot-IsBurned :
    (token : String) (until : ℕ) (cfg : FaucetConfig) (w : World) (db : Db)
    → w.now ≤ until
    → IsBurned token until db.used_cap
    → IsBurned token until (snapshot cfg w db).0.used_cap
unfolding snapshot
snapshot-IsBurned token until cfg w db le h = go w.key
  where
    go :
        (key : Option FaucetKey)
        → IsBurned token until
            (elim key as (λ x. Db × Option Overview) [
              | none ↦ (db, none)
              | some key' ↦ overview_from cfg w key' (
                  spendable_utxos w.network
                    (w.lib.create_pkh_script key'.pub_key_hash)
                    w.now
                    (prune cfg w.now db))
            ]).0.used_cap
    go none = h
    go (some key) =
        subst (IsBurned token until)
          (sym (
            overview_from-used_cap cfg w key _
            ∙ ap (λ (b : Books). b.used_cap)
                (spendable_utxos-books w.network (w.lib.create_pkh_script key.pub_key_hash) w.now
                  (prune cfg w.now db))))
          (prune-IsBurned token until cfg w.now db le h)

after_all-IsBurned :
    (es : List Event) (token : String) (until : ℕ) (db : Db)
    → All (λ e. time_of e ≤ until) es
    → IsBurned token until db.used_cap
    → IsBurned token until (after_all es db).used_cap
unfolding after_all
after_all-IsBurned [] token until db times h = h
after_all-IsBurned (call c ∷ es) token until db (le, times) h =
    after_all-IsBurned es token until _ times (perform-IsBurned c token until db le h)
after_all-IsBurned (look cfg w ∷ es) token until db (le, times) h =
    after_all-IsBurned es token until _ times (snapshot-IsBurned token until cfg w db le h)
after_all-IsBurned (burn other expires_at now ∷ es) token until db (le, times) h =
    after_all-IsBurned es token until _ times
      (consume-IsBurned token other until expires_at now db le h)

burn-IsBurned :
    (token : String) (until now : ℕ) (db : Db)
    → (consume_cap_token token until now db).1 ≡ true
    → IsBurned token until (consume_cap_token token until now db).0.used_cap
unfolding consume_cap_token
burn-IsBurned token until now db fresh =
    elim (Bool-cases (any (has_token token) (filter (unexpired now) db.used_cap))) [
      | inl seen ↦ absurd (ground arith)
      | inr unseen ↦ rw unseen (
          any-append_self (λ r. has_token token r && leb until r.expires_at)
            (filter (unexpired now) db.used_cap) record { token = token; expires_at = until }
            (ground (arith, same_refl token)))
    ]

refused_again :
    (token : String) (until expires_at later : ℕ) (db : Db)
    → later ≤ until
    → IsBurned token until db.used_cap
    → (consume_cap_token token expires_at later db).1 ≡ false
unfolding consume_cap_token
refused_again token until expires_at later db le h =
    rw
      (burned-any token until (filter (unexpired later) db.used_cap)
        (filter-IsBurned token until later db.used_cap le h))
      refl

-- A capToken that was spent is not spent again until it expires, whatever issues, payouts,
-- maintenance of the inventory and of the wallet, snapshots and uses of tokens come in between at
-- times up to then.
pub consume_cap_token-once :
    (token : String) (until first later expires_at : ℕ) (es : List Event) (db : Db)
    → (consume_cap_token token until first db).1 ≡ true
    → All (λ e. time_of e ≤ until) es
    → later ≤ until
    → (consume_cap_token token expires_at later
        (after_all es (consume_cap_token token until first db).0)).1
      ≡ false
consume_cap_token-once token until first later expires_at es db fresh times le =
    refused_again token until expires_at later _ le
      (after_all-IsBurned es token until _ times (burn-IsBurned token until first db fresh))
