-- ===== src/Treasury/Maintenance/Sent.antt =====
-- What maintenance sends: the inputs are marked as spent, and who was paid what stays as it is.
use dash_faucet_cf.Base.{
  ℕ, ◌≡◌, ◌∙◌, ap, ◌⊎◌, inl, inr, Bool, true, false, Option, none, some, List, [], ◌∷◌, ltb,
  if◌then◌else◌,
}
use dash_faucet_cf.Config.{FaucetConfig}
use dash_faucet_cf.Db.{Db, SpentRow}
use dash_faucet_cf.Tx.{Utxo, BuiltTx, FaucetKey, Result, ok, err}
use dash_faucet_cf.Tx.Build.{build_split, build_consolidation}
use dash_faucet_cf.Treasury.{World, Network}
use dash_faucet_cf.Treasury.Ledger.{record_spend}
use dash_faucet_cf.Treasury.Broadcast.{
  Settlement, Refusal, settled, unsettled, threw, settle_broadcast,
}
use dash_faucet_cf.Treasury.Broadcast.Outcome.{IsSeen, Means, settle_broadcast-Means}
use dash_faucet_cf.Treasury.Books.{Books, books, record_spend-books, settle_broadcast-books}
use dash_faucet_cf.Treasury.Payout.Locked.{IsLocked, record_spend-IsLocked}
use dash_faucet_cf.Treasury.Maintenance.{
  Maintained, idle, poll, blocked, failed, split, consolidated, settle_own, send_own, merge_coins,
  split_count, split_coin,
}

-- The ledgers are the given ones, and so are the locks on spent coins.
abbrev pub Keeps : Books → List SpentRow → Db → Type 0
Keeps b s db = (books db ≡ b) × (db.spent ≡ s)

-- A transaction that was built did not settle: the locks are what the outcome of its broadcast
-- makes of the given ones.
abbrev pub IsUnsettled : Network → ℕ → List SpentRow → Db → Type 0
IsUnsettled net now s db =
    (built : BuiltTx) × (before : Db) × (uncertain : Bool) × (why : Refusal) × (before.spent ≡ s)
    × Means net built now before (db, unsettled uncertain why)

-- What was sent was taken by a relay or seen by a node, and its inputs are marked as spent; where
-- nothing was sent, the locks are the given ones, and where something may have been, they are what
-- the outcome of its broadcast makes of them.
abbrev pub IsMarked : Network → ℕ → List SpentRow → Db → Maintained → Type 0
IsMarked net now s db (split built) = IsSeen net built × IsLocked built now db
IsMarked net now s db (consolidated built) = IsSeen net built × IsLocked built now db
IsMarked net now s db idle = db.spent ≡ s
IsMarked net now s db poll = db.spent ≡ s
IsMarked net now s db blocked = (db.spent ≡ s) ⊎ IsUnsettled net now s db
IsMarked net now s db failed = db.spent ≡ s

-- The books are the given ones, and the inputs of what was sent are marked.
abbrev pub IsOwnAffair : Network → Books → List SpentRow → ℕ → Db × Maintained → Type 0
IsOwnAffair net b s now (db, result) = (books db ≡ b) × IsMarked net now s db result

module _ (cfg : FaucetConfig) (w : World) (key : FaucetKey) (b : Books) (s : List SpentRow) where
  settle_own-IsOwnAffair :
      (done : BuiltTx → Maintained) (built : BuiltTx) (before : Db) (out : Db × Settlement)
      → ((db : Db)
          → IsSeen w.network built
          → IsLocked built w.now db
          → IsMarked w.network w.now s db (done built))
      → Keeps b s before
      → books out.0 ≡ b
      → Means w.network built w.now before out
      → IsOwnAffair w.network b s w.now (settle_own w done built out)
  unfolding settle_own
  settle_own-IsOwnAffair done built before (db, settled accepted) marks k e (same, seen) = (
    record_spend-books built w.now db ∙ e,
    marks (record_spend built w.now db) seen (record_spend-IsLocked built w.now db),
  )
  settle_own-IsOwnAffair done built before (db, unsettled uncertain why) marks k e m =
      (e, inr (built, before, uncertain, why, k.1, m))
  settle_own-IsOwnAffair done built before (db, threw) marks k e (same, gone) =
      (e, ap (λ (d : Db). d.spent) same ∙ k.1)

  send_own-IsOwnAffair :
      (done : BuiltTx → Maintained) (made : Result BuiltTx) (db : Db)
      → ((built : BuiltTx)
          → (db' : Db) → IsSeen w.network built
          → IsLocked built w.now db'
          → IsMarked w.network w.now s db' (done built))
      → Keeps b s db
      → IsOwnAffair w.network b s w.now (send_own w done made db)
  unfolding send_own
  send_own-IsOwnAffair done (ok built) db marks e =
      settle_own-IsOwnAffair done built db (settle_broadcast w.network built w.now db) (marks built)
        e (settle_broadcast-books w.network built w.now db ∙ e.0)
        (settle_broadcast-Means w.network built w.now db)
  send_own-IsOwnAffair done (err x) db marks e = (e.0, inl e.1)

  pub merge_coins-IsOwnAffair :
      (inputs : List Utxo) (db : Db)
      → Keeps b s db
      → IsOwnAffair w.network b s w.now (merge_coins cfg w key inputs db)
  unfolding merge_coins
  merge_coins-IsOwnAffair inputs db e = go cfg.dry_run
    where
      go :
          (dry : Bool)
          → IsOwnAffair w.network b s w.now (
              if dry
              then (db, idle)
              else send_own w consolidated (build_consolidation w.lib key inputs) db)
      go true = e
      go false =
          send_own-IsOwnAffair consolidated (build_consolidation w.lib key inputs) db
            (λ built db' seen h. (seen, h)) e

  pub split_coin-IsOwnAffair :
      (pool : ℕ) (biggest : Option Utxo) (db : Db)
      → Keeps b s db
      → IsOwnAffair w.network b s w.now (split_coin cfg w key pool biggest db)
  unfolding split_coin
  split_coin-IsOwnAffair pool none db e = (e.0, inl e.1)
  split_coin-IsOwnAffair pool (some biggest) db e =
      go (ltb (split_count cfg pool biggest.satoshis) 2) cfg.dry_run
    where
      made : Result BuiltTx
      made =
          build_split w.lib key (biggest ∷ []) (split_count cfg pool biggest.satoshis)
            cfg.pool_utxo_sats

      go :
          (few dry : Bool)
          → IsOwnAffair w.network b s w.now
              (if few then (db, blocked) else if dry then (db, idle) else send_own w split made db)
      go true dry = (e.0, inl e.1)
      go false true = e
      go false false = send_own-IsOwnAffair split made db (λ built db' seen h. (seen, h)) e
