-- ===== src/Treasury/Maintenance/Own.antt =====
-- Maintenance moves the faucet's own coins: who was paid what stays as it is, and the coins that it
-- spends are marked.
use dash_faucet_cf.Base.{
  ℕ, ◌≡◌, inl, refl, sym, ◌∙◌, subst, Bool, true, false, Option, none, some, List, [], ◌∷◌, leb,
  arith, find, if◌then◌else◌, length, ◌*◌, ◌+◌, ◌/◌,
}
use dash_faucet_cf.Base.Sort.{sort}
use dash_faucet_cf.Config.{FaucetConfig}
use dash_faucet_cf.Db.{Db, SpentRow}
use dash_faucet_cf.Tx.{Utxo, BuiltTx, FaucetKey}
use dash_faucet_cf.Tx.Select.{descending_before}
use dash_faucet_cf.Treasury.{World, Snapshot}
use dash_faucet_cf.Treasury.Ledger.{prune, spendable_utxos}
use dash_faucet_cf.Treasury.Merging.{
  merging, schedule_maintenance, follow_up_ms, confirmation_poll_ms, MergePlan, nothing, waiting,
  merge, plan_merge, merge_demand,
}
use dash_faucet_cf.Treasury.Books.{Books, books, spendable_utxos-books, schedule_maintenance-books}
use dash_faucet_cf.Treasury.Payout.Locked.{AreLocked, IsLocked, schedule_maintenance-spent}
use dash_faucet_cf.Treasury.Maintenance.{
  Maintained, idle, poll, blocked, failed, split, consolidated, plan_goals, drop_demand,
  follow_plan, consolidate, pool_coins, is_splittable, split_coin, merge_or_split, refill, tend,
  tend_view, tend_with, maintain_locked, book_next, maintain,
}
use dash_faucet_cf.Treasury.Maintenance.Sent.{
  IsOwnAffair, Keeps, merge_coins-IsOwnAffair, split_coin-IsOwnAffair,
}

abbrev KeepsAll : Books → List SpentRow → Db × MergePlan → Type 0
KeepsAll b s out = Keeps b s out.0

drop_demand-books : (goal demand : ℕ) (db : Db) → books (drop_demand goal demand db) ≡ books db
drop_demand-books goal demand db = ground arith

drop_demand-spent : (goal demand : ℕ) (db : Db) → (drop_demand goal demand db).spent ≡ db.spent
drop_demand-spent goal demand db = ground arith

module _ (cfg : FaucetConfig) (w : World) (key : FaucetKey) (b : Books) (s : List SpentRow) where
  plan_goals-Keeps :
      (utxos : List Utxo) (demand : ℕ) (goals : List ℕ) (db : Db)
      → Keeps b s db
      → Keeps b s (plan_goals cfg w.lib utxos demand goals db).0
  unfolding plan_goals
  plan_goals-Keeps utxos demand [] db k = k
  plan_goals-Keeps utxos demand (goal ∷ goals) db k = go (plan_merge cfg w.lib utxos goal) (
      plan_goals-Keeps utxos demand goals (drop_demand goal demand db)
        (drop_demand-books goal demand db ∙ k.0, drop_demand-spent goal demand db ∙ k.1))
    where
      go :
          (plan : MergePlan)
          → Keeps b s (plan_goals cfg w.lib utxos demand goals (drop_demand goal demand db)).0
          → KeepsAll b s (elim plan [
            | nothing ↦ plan_goals cfg w.lib utxos demand goals (drop_demand goal demand db)
            | waiting ↦ (db, waiting)
            | merge coins reaches ↦ (db, merge coins reaches)
          ])
      go nothing rest = rest
      go waiting rest = k
      go (merge coins reaches) rest = k

  follow_plan-IsOwnAffair :
      (plan : MergePlan) (db : Db)
      → Keeps b s db
      → IsOwnAffair w.network b s w.now (follow_plan cfg w key plan db)
  unfolding follow_plan
  follow_plan-IsOwnAffair nothing db e = e
  follow_plan-IsOwnAffair waiting db e = e
  follow_plan-IsOwnAffair (merge coins reaches) db e =
      merge_coins-IsOwnAffair cfg w key b s coins db e

  consolidate-IsOwnAffair :
      (utxos : List Utxo) (db : Db)
      → Keeps b s db
      → IsOwnAffair w.network b s w.now (consolidate cfg w key utxos db)
  unfolding consolidate merge_demand
  consolidate-IsOwnAffair utxos db e = follow_plan-IsOwnAffair _ _ (plan_goals-Keeps utxos _ _ _ e)

  merge_or_split-IsOwnAffair :
      (pool : ℕ) (biggest : Option Utxo) (plan : MergePlan) (db : Db)
      → Keeps b s db
      → IsOwnAffair w.network b s w.now (merge_or_split cfg w key pool biggest plan db)
  unfolding merge_or_split
  merge_or_split-IsOwnAffair pool biggest (merge coins reaches) db e =
      merge_coins-IsOwnAffair cfg w key b s coins db e
  merge_or_split-IsOwnAffair pool biggest nothing db e =
      split_coin-IsOwnAffair cfg w key b s pool biggest db e
  merge_or_split-IsOwnAffair pool biggest waiting db e =
      split_coin-IsOwnAffair cfg w key b s pool biggest db e

  refill-IsOwnAffair :
      (utxos : List Utxo) (pool : ℕ) (db : Db)
      → Keeps b s db
      → IsOwnAffair w.network b s w.now (refill cfg w key utxos pool db)
  unfolding refill
  refill-IsOwnAffair utxos pool db e =
      go (find (is_splittable cfg) (sort descending_before utxos)) (merging cfg)
    where
      biggest : Option Utxo
      biggest = find (λ u. true) (sort descending_before utxos)

      plan : MergePlan
      plan = plan_merge cfg w.lib utxos ((200 * cfg.pool_utxo_sats + 98) / 99)

      go :
          (splittable : Option Utxo) (merges : Bool)
          → IsOwnAffair w.network b s w.now (elim splittable [
            | some u ↦ split_coin cfg w key pool (some u) db
            | none ↦
                if merges
                then merge_or_split cfg w key pool biggest plan db
                else split_coin cfg w key pool biggest db
          ])
      go (some u) merges = split_coin-IsOwnAffair cfg w key b s pool (some u) db e
      go none true = merge_or_split-IsOwnAffair pool biggest plan db e
      go none false = split_coin-IsOwnAffair cfg w key b s pool biggest db e

  tend-IsOwnAffair :
      (utxos : List Utxo) (db : Db)
      → Keeps b s db
      → IsOwnAffair w.network b s w.now (tend cfg w key utxos db)
  unfolding tend
  tend-IsOwnAffair utxos db e = go (leb cfg.pool_min (length (pool_coins cfg utxos)))
    where
      go :
          (enough : Bool)
          → IsOwnAffair w.network b s w.now (
              if enough
              then consolidate cfg w key utxos db
              else refill cfg w key utxos (length (pool_coins cfg utxos)) db)
      go true = consolidate-IsOwnAffair utxos db e
      go false = refill-IsOwnAffair utxos (length (pool_coins cfg utxos)) db e

  tend_view-IsOwnAffair :
      (view : Db × Option Snapshot)
      → Keeps b s view.0
      → IsOwnAffair w.network b s w.now (tend_view cfg w key view)
  unfolding tend_view
  tend_view-IsOwnAffair (db, none) e = (e.0, inl e.1)
  tend_view-IsOwnAffair (db, some view) e = tend-IsOwnAffair view.utxos db e

-- The locks that the pass starts from: those that its view of the chain leaves.
abbrev pub view_locks : World → Option FaucetKey → Db → List SpentRow
view_locks w none db = db.spent
view_locks w (some key) db =
    (spendable_utxos w.network (w.lib.create_pkh_script key.pub_key_hash) w.now db).0.spent

tend_with-IsOwnAffair :
    (cfg : FaucetConfig) (w : World) (key : Option FaucetKey) (db : Db)
    → IsOwnAffair w.network (books db) (view_locks w key db) w.now (tend_with cfg w key db)
unfolding tend_with
tend_with-IsOwnAffair cfg w none db = (refl, refl)
tend_with-IsOwnAffair cfg w (some key) db =
    tend_view-IsOwnAffair cfg w key (books db) (view_locks w (some key) db) _
      (spendable_utxos-books w.network (w.lib.create_pkh_script key.pub_key_hash) w.now db, refl)

reschedule-IsLocked :
    (cfg : FaucetConfig) (w : World) (delay : ℕ) (built : BuiltTx) (db : Db)
    → IsLocked built w.now db
    → IsLocked built w.now (schedule_maintenance cfg w delay db)
reschedule-IsLocked cfg w delay built db h =
    subst (AreLocked built.inputs w.now) (sym (schedule_maintenance-spent cfg w delay db)) h

book_next-IsOwnAffair :
    (cfg : FaucetConfig) (w : World) (b : Books) (s : List SpentRow) (out : Db × Maintained)
    → IsOwnAffair w.network b s w.now out
    → IsOwnAffair w.network b s w.now (book_next cfg w out)
unfolding book_next
book_next-IsOwnAffair cfg w b s (db, split built) (e, (seen, locked)) = (
  schedule_maintenance-books cfg w follow_up_ms db ∙ e,
  (seen, reschedule-IsLocked cfg w follow_up_ms built db locked),
)
book_next-IsOwnAffair cfg w b s (db, consolidated built) (e, (seen, locked)) = (
  schedule_maintenance-books cfg w follow_up_ms db ∙ e,
  (seen, reschedule-IsLocked cfg w follow_up_ms built db locked),
)
book_next-IsOwnAffair cfg w b s (db, poll) (e, kept) = (
  schedule_maintenance-books cfg w confirmation_poll_ms db ∙ e,
  schedule_maintenance-spent cfg w confirmation_poll_ms db ∙ kept,
)
book_next-IsOwnAffair cfg w b s (db, idle) h = h
book_next-IsOwnAffair cfg w b s (db, blocked) h = h
book_next-IsOwnAffair cfg w b s (db, failed) h = h

pub maintain-IsOwnAffair :
    (cfg : FaucetConfig) (w : World) (db : Db)
    → IsOwnAffair w.network
        (books (prune cfg w.now db))
        (view_locks w w.key (prune cfg w.now db))
        w.now
        (maintain cfg w db)
unfolding maintain maintain_locked
maintain-IsOwnAffair cfg w db =
    book_next-IsOwnAffair cfg w (books (prune cfg w.now db))
      (view_locks w w.key (prune cfg w.now db)) _
      (tend_with-IsOwnAffair cfg w w.key (prune cfg w.now db))
