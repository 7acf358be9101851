-- ===== src/Treasury/Invitations/Ending.antt =====
-- A voucher that is claimed or failed stays so, whatever the Treasury does afterwards.
use dash_faucet_cf.Base.{ℕ, zero, suc, ◌≡◌, refl, sym, subst, ap, none, some, List, [], ◌∷◌}
use dash_faucet_cf.Config.{FaucetConfig}
use dash_faucet_cf.Db.{Db, InvitationRow}
use dash_faucet_cf.Tx.{BuiltTx}
use dash_faucet_cf.Treasury.{World}
use dash_faucet_cf.Treasury.Books.{Books}
use dash_faucet_cf.Treasury.Ledger.{prune}
use dash_faucet_cf.Treasury.Admission.{PayoutRequest, Payer, public_faucet, by_key, by_code}
use dash_faucet_cf.Treasury.Payout.{payout_locked, charge, record_claim}
use dash_faucet_cf.Treasury.Payout.Commit.{payout_locked-books}
use dash_faucet_cf.Treasury.Keys.{record_key_payout}
use dash_faucet_cf.Accounts.{record_redemption}
use dash_faucet_cf.Treasury.Maintenance.{maintain}
use dash_faucet_cf.Treasury.Maintenance.Own.{maintain-IsOwnAffair}
use dash_faucet_cf.Treasury.Invitations.{Vault}
use dash_faucet_cf.Treasury.Invitations.Rows.{HasUniqueIds, row_at}
use dash_faucet_cf.Treasury.Invitations.Lifecycle.{Follows, Evolves}
use dash_faucet_cf.Treasury.Invitations.Issuing.{IssueRequest, issue_invitation}
use dash_faucet_cf.Treasury.Invitations.Minting.{Coinage}
use dash_faucet_cf.Treasury.Invitations.Tending.{maintain_invitations}
use dash_faucet_cf.Treasury.Invitations.Evolving.{
  IsSuccessor, IsSuccessor-refl, IsSuccessor-trans, issue_invitation-Leads,
}
use dash_faucet_cf.Treasury.Invitations.Evolving.Maintained.{maintain_invitations-Leads}

-- A call of the Treasury.
pub data Call : Type 0 where
  issue : FaucetConfig → Vault → IssueRequest → ℕ → Call
  tend : FaucetConfig → World → Vault → (ℕ → Coinage) → Call
  pay : FaucetConfig → World → PayoutRequest → Call
  upkeep : FaucetConfig → World → Call

abbrev pub perform : Call → Db → Db
perform (issue cfg vault input now) db = (issue_invitation cfg vault input now db).0
perform (tend cfg w vault coinage) db = (maintain_invitations cfg w vault coinage db).0
perform (pay cfg w input) db = (payout_locked cfg w input db).0
perform (upkeep cfg w) db = (maintain cfg w db).0

unfoldable pub perform_all : List Call → Db → Db
perform_all [] db = db
perform_all (c ∷ cs) db = perform_all cs (perform c db)

same-IsSuccessor :
    (rows table : List InvitationRow) → table ≡ rows → HasUniqueIds rows → IsSuccessor rows table
same-IsSuccessor rows table e u = subst (IsSuccessor rows) (sym e) (IsSuccessor-refl rows u)

charge-inventory :
    (payer : Payer) (input : PayoutRequest) (built : BuiltTx) (satoshis now : ℕ) (db : Db)
    → (charge payer input built satoshis now db).inventory ≡ db.inventory
unfolding charge record_claim record_key_payout record_redemption
charge-inventory public_faucet input built satoshis now db = refl
charge-inventory (by_key key) input built satoshis now db = refl
charge-inventory (by_code code) input built satoshis now db = refl

payout-inventory :
    (cfg : FaucetConfig) (w : World) (input : PayoutRequest) (db : Db)
    → (payout_locked cfg w input db).0.inventory ≡ db.inventory
unfolding prune
payout-inventory cfg w input db =
    payout_locked-books (λ b. b.inventory ≡ db.inventory) cfg w input db refl
      (λ payer satoshis built admitted.
        charge-inventory payer input built satoshis w.now (prune cfg w.now db))

perform-IsSuccessor :
    (c : Call) (db : Db)
    → HasUniqueIds db.inventory
    → IsSuccessor db.inventory (perform c db).inventory
unfolding prune
perform-IsSuccessor (issue cfg vault input now) db u =
    issue_invitation-Leads cfg vault input now db u
perform-IsSuccessor (tend cfg w vault coinage) db u =
    maintain_invitations-Leads cfg w vault coinage db u
perform-IsSuccessor (pay cfg w input) db u =
    same-IsSuccessor db.inventory _ (payout-inventory cfg w input db) u
perform-IsSuccessor (upkeep cfg w) db u =
    same-IsSuccessor db.inventory _
      (ap (λ (b : Books). b.inventory) (maintain-IsOwnAffair cfg w db).0) u

perform_all-IsSuccessor :
    (cs : List Call) (db : Db)
    → HasUniqueIds db.inventory
    → IsSuccessor db.inventory (perform_all cs db).inventory
unfolding perform_all
perform_all-IsSuccessor [] db u = IsSuccessor-refl db.inventory u
perform_all-IsSuccessor (c ∷ cs) db u =
    let first = perform-IsSuccessor c db u in
    IsSuccessor-trans _ _ _ first.evolves (perform_all-IsSuccessor cs (perform c db) first.unique)

-- What became of a row stands at its place.
abbrev pub IsFollowed : InvitationRow → List InvitationRow → ℕ → Type 0
IsFollowed x table i = (y : InvitationRow) × (row_at table i ≡ some y) × Follows x y

Evolves-IsFollowed :
    (xs ys : List InvitationRow) (i : ℕ) (x : InvitationRow)
    → Evolves xs ys
    → row_at xs i ≡ some x
    → IsFollowed x ys i
Evolves-IsFollowed [] ys i x e at = absurd (cc)
Evolves-IsFollowed (z ∷ xs) [] i x e at = absurd e
Evolves-IsFollowed (z ∷ xs) (y ∷ ys) zero x (f, e) at =
    (y, refl, subst (λ r. Follows r y) (ap (λ o. elim o [ none ↦ z | some r ↦ r ]) at) f)
Evolves-IsFollowed (z ∷ xs) (y ∷ ys) (suc i) x (f, e) at = Evolves-IsFollowed xs ys i x e at

-- Where the vouchers have unique ids, after any sequence of issues, maintenance of the inventory,
-- payouts and maintenance of the wallet, the row of every voucher is at its place with its id and
-- txid, its state is reached by the steps of the life of a voucher (from unknown or awaiting to
-- available, to and from issued, to claimed or failed, which nothing leaves), and its secret is
-- kept unless it is claimed or failed.
pub perform_all-IsFollowed :
    (cs : List Call) (db : Db) (i : ℕ) (x : InvitationRow)
    → HasUniqueIds db.inventory
    → row_at db.inventory i ≡ some x
    → IsFollowed x (perform_all cs db).inventory i
perform_all-IsFollowed cs db i x u at =
    Evolves-IsFollowed db.inventory (perform_all cs db).inventory i x
      (perform_all-IsSuccessor cs db u).evolves at
