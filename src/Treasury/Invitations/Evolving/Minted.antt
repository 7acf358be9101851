-- ===== src/Treasury/Invitations/Evolving/Minted.antt =====
-- `mintInvitation` of src/treasury.ts adds one voucher, which starts its life.
use dash_faucet_cf.Base.{
  ℕ, ◌≡◌, refl, sym, subst, ap, inl, inr, String, true, false, Option, none, some, List, [], ◌∷◌,
  ◌++◌, arith, any, same→path, Bool-cases,
}
use dash_faucet_cf.Config.{InvitationConfig}
use dash_faucet_cf.Db.{Db, InvitationRow, broadcast_unknown}
use dash_faucet_cf.Db.Sql.{update_where, count_where, count_where-append}
use dash_faucet_cf.Tx.{BuiltTx, Result, ok, err, FaucetKey, DashTx}
use dash_faucet_cf.Treasury.{Snapshot}
use dash_faucet_cf.Treasury.Books.{Books, spendable_utxos-books, settle_broadcast-books}
use dash_faucet_cf.Treasury.Ledger.{spendable_utxos, record_spend}
use dash_faucet_cf.Treasury.Broadcast.{Settlement, settled, unsettled, threw, settle_broadcast}
use dash_faucet_cf.Treasury.Invitations.{Vault, has_voucher_id, as_awaiting, as_rejected}
use dash_faucet_cf.Treasury.Invitations.Rows.{HasUniqueIds, stands, update-HasUniqueIds}
use dash_faucet_cf.Treasury.Invitations.Lifecycle.{
  relayed, rejected, Lives, here, Follows, mint-Evolves, update-Evolves,
}
use dash_faucet_cf.Treasury.Invitations.Minting.{
  Coinage, new_voucher, settle_voucher, is_taken, mint_built, mint_view, mint_invitation,
}
use dash_faucet_cf.Treasury.Invitations.Evolving.{
  IsSuccessor, IsSuccessor-refl, IsSuccessor-trans, Leads, Step-Follows,
}

untaken-stands :
    (id txid : String) (xs : List InvitationRow) (y : InvitationRow)
    → any (is_taken id txid) xs ≡ false
    → y.state ≡ broadcast_unknown
    → stands id broadcast_unknown (xs ++ y ∷ []) ≡ true
untaken-stands id txid [] y free new = rw new (ground arith)
untaken-stands id txid (x ∷ xs) y free new = ground (arith, untaken-stands id txid xs y)

untaken-count :
    (id txid : String) (xs : List InvitationRow)
    → any (is_taken id txid) xs ≡ false
    → count_where (has_voucher_id id) xs ≡ 0
untaken-count id txid [] free = refl
untaken-count id txid (x ∷ xs) free = ground (arith, untaken-count id txid xs)

append-HasUniqueIds :
    (txid : String) (xs : List InvitationRow) (y : InvitationRow)
    → any (is_taken y.id txid) xs ≡ false
    → HasUniqueIds xs
    → HasUniqueIds (xs ++ y ∷ [])
append-HasUniqueIds txid xs y free u id = elim (Bool-cases (has_voucher_id id y)) [
  | inl hit ↦
      let none_before : count_where (has_voucher_id id) xs ≡ 0 =
        subst (λ i. count_where (has_voucher_id i) xs ≡ 0) (same→path y.id id hit)
          (untaken-count y.id txid xs free) in
      ground (arith, count_where-append (has_voucher_id id) xs (y ∷ []))
  | inr miss ↦ ground (arith, count_where-append (has_voucher_id id) xs (y ∷ []), u id)
]

-- A change by id of rows that stand in one state.
update-IsSuccessor :
    (id : String) (f : InvitationRow → InvitationRow) (table : List InvitationRow)
    → ((x : InvitationRow) → (f x).id ≡ x.id)
    → ((x : InvitationRow) → x.state ≡ broadcast_unknown → Follows x (f x))
    → HasUniqueIds table
    → stands id broadcast_unknown table ≡ true
    → IsSuccessor table (update_where (has_voucher_id id) f table)
update-IsSuccessor id f table keeps step u h = record {
  evolves = update-Evolves id broadcast_unknown f step table h;
  unique = update-HasUniqueIds id f keeps table u;
}

settle_voucher-Leads :
    (c : Coinage) (built : BuiltTx) (now : ℕ) (s : Db × Settlement)
    → HasUniqueIds s.0.inventory
    → stands c.id broadcast_unknown s.0.inventory ≡ true
    → Leads s.0.inventory (settle_voucher c built now s)
unfolding settle_voucher record_spend
settle_voucher-Leads c built now (db, settled accepted) u h =
    update-IsSuccessor c.id (as_awaiting now) db.inventory (λ x. refl)
      (λ x at.
        Step-Follows x (as_awaiting now x) refl refl (inl (refl, refl)) broadcast_unknown at
          relayed)
      u h
settle_voucher-Leads c built now (db, unsettled true why) u h =
    update-IsSuccessor c.id _ db.inventory (λ x. refl)
      (λ x at. record {
        same_id = refl;
        same_txid = refl;
        lives = subst (λ t. Lives t broadcast_unknown) (sym at) here;
        kept = inl (refl, refl);
      })
      u h
settle_voucher-Leads c built now (db, unsettled false why) u h =
    update-IsSuccessor c.id (as_rejected now) db.inventory (λ x. refl)
      (λ x at.
        Step-Follows x (as_rejected now x) refl refl (inr (inr refl)) broadcast_unknown at rejected)
      u h
settle_voucher-Leads c built now (db, threw) u h = IsSuccessor-refl db.inventory u

abbrev inventory_of : Books → List InvitationRow
inventory_of b = b.inventory

module _ (cfg : InvitationConfig) (vault : Vault) (c : Coinage) (now : ℕ) where
  inserted-Leads :
      (built : BuiltTx) (db : Db)
      → HasUniqueIds db.inventory
      → any (is_taken c.id built.txid) db.inventory ≡ false
      → Leads db.inventory (
          settle_voucher c built now (
            settle_broadcast c.network built now
              record db { inventory = db.inventory ++ new_voucher cfg vault c built now ∷ [] }))
  inserted-Leads built db u free =
      IsSuccessor-trans db.inventory rows _ (mint-Evolves db.inventory new here) (
        subst (λ t. IsSuccessor t (settle_voucher c built now sent).0.inventory) same_rows
          (settle_voucher-Leads c built now sent
            (subst HasUniqueIds (sym same_rows)
              (append-HasUniqueIds built.txid db.inventory new free u))
            (subst (λ t. stands c.id broadcast_unknown t ≡ true) (sym same_rows)
              (untaken-stands c.id built.txid db.inventory new free refl))))
    where
      new : InvitationRow
      new = new_voucher cfg vault c built now

      rows : List InvitationRow
      rows = db.inventory ++ new ∷ []

      sent : Db × Settlement
      sent = settle_broadcast c.network built now (record db { inventory = rows })

      same_rows : sent.0.inventory ≡ rows
      same_rows =
          ap inventory_of
            (settle_broadcast-books c.network built now (record db { inventory = rows }))

  mint_built-Leads :
      (result : Result BuiltTx) (db : Db)
      → HasUniqueIds db.inventory
      → Leads db.inventory (mint_built cfg vault c now result db)
  unfolding mint_built
  mint_built-Leads (err e) db u = IsSuccessor-refl db.inventory u
  mint_built-Leads (ok built) db u =
      elim (Bool-cases (any (is_taken c.id built.txid) db.inventory)) [
        | inl taken ↦ rw taken (IsSuccessor-refl db.inventory u)
        | inr free ↦ rw free (inserted-Leads built db u free)
      ]

  mint_view-Leads :
      (lib : DashTx) (key : FaucetKey) (s : Db × Option Snapshot)
      → HasUniqueIds s.0.inventory
      → Leads s.0.inventory (mint_view cfg vault lib key c now s)
  unfolding mint_view
  mint_view-Leads lib key (db, none) u = IsSuccessor-refl db.inventory u
  mint_view-Leads lib key (db, some view) u = mint_built-Leads _ db u

  pub mint_invitation-Leads :
      (lib : DashTx) (key : Option FaucetKey) (db : Db)
      → HasUniqueIds db.inventory
      → Leads db.inventory (mint_invitation cfg vault lib key c now db)
  unfolding mint_invitation
  mint_invitation-Leads lib none db u = IsSuccessor-refl db.inventory u
  mint_invitation-Leads lib (some key) db u =
      subst (λ t. IsSuccessor t (mint_view cfg vault lib key c now seen).0.inventory) same_rows
        (mint_view-Leads lib key seen (subst HasUniqueIds (sym same_rows) u))
    where
      seen : Db × Option Snapshot
      seen = spendable_utxos c.network (lib.create_pkh_script key.pub_key_hash) now db

      same_rows : seen.0.inventory ≡ db.inventory
      same_rows =
          ap inventory_of
            (spendable_utxos-books c.network (lib.create_pkh_script key.pub_key_hash) now db)
