-- ===== src/Treasury/Ledger/Locks.antt =====
-- A locked outpoint stays in the table `spent` for as long as the ledger promises.
use dash_faucet_cf.Base.{
  ℕ, ◌+◌, ◌≤◌, ◌≡◌, ◌⊎◌, inl, inr, String, Bool, true, false, ◌&&◌, not, List, [], ◌∷◌, arith, ltb,
  ◌==◌, same, same_iff, Bool-cases, any, All, All-filter, All-append, All-of_filter, All-map,
}
use dash_faucet_cf.Db.{Db, SpentRow}
use dash_faucet_cf.Db.Sql.{insert_or_replace, delete_where, any-append, any-append_self}
use dash_faucet_cf.Tx.{Utxo, Outpoint}
use dash_faucet_cf.Treasury.Ledger.{
  spent_settled_ms, spent_stale_ms, spent_at, lists, is_settled, is_stale, settle_row, settle_rows,
  reconcile, lock_row, lock_outpoints,
}

abbrev pub outpoint_at : String → ℕ → Outpoint → Bool
outpoint_at txid vout o = same o.txid txid && o.output_index == vout

module _ (txid : String) (vout : ℕ) where
  -- The outpoint was marked as spent at `since` or later, and not before.
  pub record HasLock (since : ℕ) (spent : List SpentRow) : Type 0 where
    pub present : any (spent_at txid vout) spent ≡ true
    pub young : All (λ r. spent_at txid vout r ≡ true → since ≤ r.created_at) spent

  -- When `reconcile` must keep the lock: for half an hour, and for a day while the explorers
  -- still list the coin.
  abbrev pub IsHeld : List Utxo → ℕ → ℕ → Type 0
  IsHeld confirmed since now =
      (now ≤ since + spent_settled_ms)
      ⊎ ((lists confirmed txid vout ≡ true) × (now ≤ since + spent_stale_ms))

  abbrev same_key : String → ℕ → Bool
  same_key a b = same a txid && b == vout

  any-delete_ne :
      (a : String) (b : ℕ) (xs : List SpentRow)
      → same_key a b ≡ false
      → any (spent_at txid vout) xs ≡ true
      → any (spent_at txid vout) (delete_where (spent_at a b) xs) ≡ true
  any-delete_ne a b [] ne h = h
  any-delete_ne a b (x ∷ xs) ne h =
      ground
        (arith, any-delete_ne a b xs ne, same_iff x.txid a, same_iff x.txid txid, same_iff a txid)

  delete_ne-HasLock :
      (a : String) (b since : ℕ) (xs : List SpentRow)
      → same_key a b ≡ false
      → HasLock since xs
      → HasLock since (delete_where (spent_at a b) xs)
  delete_ne-HasLock a b since xs ne h = record {
    present = any-delete_ne a b xs ne h.present;
    young = All-filter _ (λ r. not (spent_at a b r)) xs h.young;
  }

  same_row :
      (o : Outpoint) (r : SpentRow)
      → outpoint_at txid vout o ≡ true
      → spent_at txid vout r ≡ true
      → spent_at o.txid o.output_index r ≡ true
  same_row o r e h =
      ground (arith, same_iff o.txid txid, same_iff r.txid txid, same_iff r.txid o.txid)

  -- Locking the outpoint itself, whatever the table holds.
  lock_self-HasLock :
      (o : Outpoint) (now : ℕ) (xs : List SpentRow)
      → outpoint_at txid vout o ≡ true
      → HasLock now (insert_or_replace (spent_at o.txid o.output_index) (lock_row now o) xs)
  lock_self-HasLock o now xs e = record {
    present =
        any-append_self (spent_at txid vout) (delete_where (spent_at o.txid o.output_index) xs) _ e;
    young =
        All-append _ (delete_where (spent_at o.txid o.output_index) xs) (lock_row now o ∷ [])
          (All-of_filter _ _ (λ r kept mine. absurd (ground (arith, same_row o r e mine))) xs)
          ((λ mine. omega arith), tt);
  }

  weaken-HasLock : (a b : ℕ) (xs : List SpentRow) → a ≤ b → HasLock b xs → HasLock a xs
  weaken-HasLock a b xs le h = record {
    present = h.present;
    young = All-map (λ r f mine. omega (arith, f mine)) xs h.young;
  }

  lock_step-HasLock :
      (o : Outpoint) (since now : ℕ) (xs : List SpentRow)
      → since ≤ now
      → HasLock since xs
      → HasLock since (insert_or_replace (spent_at o.txid o.output_index) (lock_row now o) xs)
  lock_step-HasLock o since now xs le h = elim (Bool-cases (outpoint_at txid vout o)) [
    | inl mine ↦ weaken-HasLock since now _ le (lock_self-HasLock o now xs mine)
    | inr other ↦
        let kept = delete_ne-HasLock o.txid o.output_index since xs other h in
        record {
          present =
              any-append (spent_at txid vout) (delete_where (spent_at o.txid o.output_index) xs)
                (lock_row now o ∷ []) kept.present;
          young =
              All-append _ (delete_where (spent_at o.txid o.output_index) xs) (lock_row now o ∷ [])
                kept.young ((λ mine. le), tt);
        }
  ]

  -- Later locks keep an earlier one.
  pub lock_outpoints-HasLock :
      (os : List Outpoint) (since now : ℕ) (xs : List SpentRow)
      → since ≤ now
      → HasLock since xs
      → HasLock since (lock_outpoints os now xs)
  unfolding lock_outpoints
  lock_outpoints-HasLock [] since now xs le h = h
  lock_outpoints-HasLock (o ∷ os) since now xs le h =
      lock_outpoints-HasLock os since now _ le (lock_step-HasLock o since now xs le h)

  -- Every outpoint of the list is locked.
  pub lock_outpoints_lem :
      (os : List Outpoint) (now : ℕ) (xs : List SpentRow)
      → any (outpoint_at txid vout) os ≡ true
      → HasLock now (lock_outpoints os now xs)
  unfolding lock_outpoints
  lock_outpoints_lem [] now xs e = absurd (cc)
  lock_outpoints_lem (o ∷ os) now xs e = elim (Bool-cases (outpoint_at txid vout o)) [
    | inl mine ↦ lock_outpoints-HasLock os now now _ (omega arith) (lock_self-HasLock o now xs mine)
    | inr other ↦ lock_outpoints_lem os now _ (ground arith)
  ]

  row_key : (row : SpentRow) → spent_at txid vout row ≡ true → (row.txid ≡ txid) × (row.vout ≡ vout)
  row_key row h = ground (arith, same_iff row.txid txid)

  -- A row of the outpoint that is held is neither settled nor stale.
  held_row :
      (confirmed : List Utxo) (since now : ℕ) (row : SpentRow)
      → IsHeld confirmed since now
      → since ≤ row.created_at
      → spent_at txid vout row ≡ true
      → (is_settled confirmed now row ≡ false) × (is_stale confirmed now row ≡ false)
  held_row confirmed since now row held le mine =
      let (same_txid, same_vout) = row_key row mine in
      let same_listed : lists confirmed row.txid row.vout ≡ lists confirmed txid vout =
        rw (same_txid, same_vout) in
      held_row_of (lists confirmed row.txid row.vout) same_listed
    where
      held_row_of :
          (b : Bool)
          → b ≡ lists confirmed txid vout
          → ((not b && ltb (row.created_at + spent_settled_ms) now) ≡ false)
            × ((b && ltb (row.created_at + spent_stale_ms) now) ≡ false)
      held_row_of b e = ground arith

  settle_row-HasLock :
      (confirmed : List Utxo) (since now : ℕ) (row : SpentRow) (db : Db)
      → IsHeld confirmed since now
      → (spent_at txid vout row ≡ true → since ≤ row.created_at)
      → HasLock since db.spent
      → HasLock since (settle_row confirmed now row db).spent
  unfolding settle_row
  settle_row-HasLock confirmed since now row db held young h =
      elim (Bool-cases (spent_at txid vout row)) [
        | inl mine ↦
            let (not_settled, not_stale) =
              held_row confirmed since now row held (young mine) mine in
            rw (not_settled, not_stale) h
        | inr other ↦
            let deleted = delete_ne-HasLock row.txid row.vout since db.spent other h in
            elim (Bool-cases (is_settled confirmed now row)) [
              | inl yes_settled ↦ rw yes_settled deleted
              | inr not_settled ↦ elim (Bool-cases (is_stale confirmed now row)) [
                | inl yes_stale ↦ rw (not_settled, yes_stale) deleted
                | inr not_stale ↦ rw (not_settled, not_stale) h
              ]
            ]
      ]

  settle_rows-HasLock :
      (confirmed : List Utxo) (since now : ℕ) (rows : List SpentRow) (db : Db)
      → IsHeld confirmed since now
      → All (λ r. spent_at txid vout r ≡ true → since ≤ r.created_at) rows
      → HasLock since db.spent
      → HasLock since (settle_rows confirmed now rows db).spent
  unfolding settle_rows
  settle_rows-HasLock confirmed since now [] db held young h = h
  settle_rows-HasLock confirmed since now (row ∷ rows) db held (young, youngs) h =
      settle_rows-HasLock confirmed since now rows (settle_row confirmed now row db) held youngs
        (settle_row-HasLock confirmed since now row db held young h)

  -- `reconcile` keeps a lock that is held.
  pub reconcile-HasLock :
      (confirmed : List Utxo) (since now : ℕ) (db : Db)
      → IsHeld confirmed since now
      → HasLock since db.spent
      → HasLock since (reconcile confirmed now db).spent
  unfolding reconcile
  reconcile-HasLock confirmed since now db held h =
      settle_rows-HasLock confirmed since now db.spent db held h.young h
