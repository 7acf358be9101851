-- ===== src/Treasury/Broadcast/Outcome.antt =====
-- What each outcome of `settleBroadcast` says of the network and of the ledger.
use dash_faucet_cf.Base.{
  ℕ, ◌≡◌, refl, ◌≢◌, ◌⊎◌, inl, inr, true, false, none, some, List, [], ◌∷◌, Option-cases,
  Bool-cases,
}
use dash_faucet_cf.Db.{Db}
use dash_faucet_cf.Tx.{BuiltTx}
use dash_faucet_cf.Treasury.{Network, BroadcastResult}
use dash_faucet_cf.Treasury.Ledger.{lock_inputs}
use dash_faucet_cf.Treasury.Broadcast.{
  Settlement, Refusal, settled, unsettled, threw, is_empty, settle_rejected, settle_silent,
  settle_again, settle_broadcast, names_missing_inputs, stale_view, relays_rejected,
}
use dash_faucet_cf.Base.Text.{codes, join}

-- Some relay took the transaction, at the first attempt or the second, or a node has seen it.
abbrev pub IsSeen : Network → BuiltTx → Type 0
IsSeen net built =
    ((r : BroadcastResult) × (net.broadcast built.txid ≡ some r) × (r.accepted ≢ []))
    ⊎ (((r : BroadcastResult) × (net.rebroadcast built.txid ≡ some r) × (r.accepted ≢ []))
        ⊎ (net.any_knows_tx built.txid ≡ some true))

-- A rejection that names missing inputs locks the inputs; no other does.
abbrev pub IsLockedIfNamed : BuiltTx → ℕ → Db → Db → BroadcastResult → Refusal → Type 0
IsLockedIfNamed built now db db' r why =
    ((names_missing_inputs (join (codes " | ") r.rejected) ≡ true)
      × (db' ≡ lock_inputs built now db)
      × (why ≡ stale_view))
    ⊎ ((names_missing_inputs (join (codes " | ") r.rejected) ≡ false)
        × (db' ≡ db)
        × (why ≡ relays_rejected))

-- No relay took it at either attempt, some gave no answer at the first, and no node says that it
-- has it.
abbrev pub IsSilent : Network → BuiltTx → Type 0
IsSilent net built =
    ((r : BroadcastResult) × (net.broadcast built.txid ≡ some r)
      × (r.accepted ≡ [])
      × (r.ambiguous ≢ []))
    × ((r : BroadcastResult) × (net.rebroadcast built.txid ≡ some r) × (r.accepted ≡ []))
    × (net.any_knows_tx built.txid ≢ some true)

-- The meaning of each outcome.
abbrev pub Means : Network → BuiltTx → ℕ → Db → Db × Settlement → Type 0
Means net built now db (db', settled names) = (db' ≡ db) × IsSeen net built
Means net built now db (db', unsettled true why) =
    (db' ≡ lock_inputs built now db) × IsSilent net built
Means net built now db (db', unsettled false why) =
    (r : BroadcastResult) × (net.broadcast built.txid ≡ some r)
    × (r.accepted ≡ [])
    × (r.ambiguous ≡ [])
    × IsLockedIfNamed built now db db' r why
Means net built now db (db', threw) =
    (db' ≡ db) × ((net.broadcast built.txid ≡ none) ⊎ (net.rebroadcast built.txid ≡ none))

is_empty-eq {ℓ} : {A : Type ℓ} (xs : List A) → is_empty xs ≡ true → xs ≡ []
is_empty-eq [] e = refl
is_empty-eq (x ∷ xs) e = absurd (cc)

not_empty {ℓ} : {A : Type ℓ} (xs : List A) → is_empty xs ≡ false → xs ≢ []
not_empty [] e = absurd (cc)
not_empty (x ∷ xs) e = λ h. cc

module _ (net : Network) (built : BuiltTx) (now : ℕ) (db : Db) where
  rejected-Means :
      (r : BroadcastResult)
      → net.broadcast built.txid ≡ some r
      → r.accepted ≡ []
      → r.ambiguous ≡ []
      → Means net built now db (settle_rejected built now r db)
  unfolding settle_rejected
  rejected-Means r e a b =
      elim (Bool-cases (names_missing_inputs (join (codes " | ") r.rejected))) [
        | inl named ↦ rw named (r, e, a, b, inl (named, refl, refl))
        | inr other ↦ rw other (r, e, a, b, inr (other, refl, refl))
      ]

  silent-Means :
      (r s : BroadcastResult)
      → net.broadcast built.txid ≡ some r
      → r.accepted ≡ []
      → r.ambiguous ≢ []
      → net.rebroadcast built.txid ≡ some s
      → s.accepted ≡ []
      → Means net built now db (settle_silent net built now db)
  unfolding settle_silent
  silent-Means r s e a b f c = elim (Option-cases (net.any_knows_tx built.txid)) [
    | inl nobody ↦ rw (nobody, settle_silent) (refl, ((r, e, a, b), (s, f, c), λ h. cc))
    | inr (true, seen) ↦ rw (seen, settle_silent) (refl, inr (inr seen))
    | inr (false, unseen) ↦ rw (unseen, settle_silent) (refl, ((r, e, a, b), (s, f, c), λ h. cc))
  ]

  again-Means :
      (r : BroadcastResult)
      → net.broadcast built.txid ≡ some r
      → r.accepted ≡ []
      → r.ambiguous ≢ []
      → Means net built now db (settle_again net built now db)
  unfolding settle_again
  again-Means r e a b = elim (Option-cases (net.rebroadcast built.txid)) [
    | inl gone ↦ rw (gone, settle_again) (refl, inr gone)
    | inr (s, f) ↦ elim (Bool-cases (is_empty s.accepted)) [
      | inl no_relay ↦
          rw (f, settle_again, no_relay)
            (silent-Means r s e a b f (is_empty-eq s.accepted no_relay))
      | inr taken ↦ rw (f, settle_again, taken) (refl, inr (inl (s, f, not_empty s.accepted taken)))
    ]
  ]

-- Every outcome has its meaning: settled, a relay took the transaction or a node has seen it, and
-- nothing is locked; uncertain, no relay took it at two attempts, some gave no answer at the
-- first, and no node says that it has it, and the inputs are locked; rejected, every relay
-- answered and none took it, and the inputs are locked and the view is called stale if the
-- rejections name missing inputs, and else nothing changes and the relays are named as the reason;
-- an exception, a broadcast threw and nothing changed.
pub settle_broadcast-Means :
    (net : Network) (built : BuiltTx) (now : ℕ) (db : Db)
    → Means net built now db (settle_broadcast net built now db)
unfolding settle_broadcast
settle_broadcast-Means net built now db = elim (Option-cases (net.broadcast built.txid)) [
  | inl gone ↦ rw (gone, settle_broadcast) (refl, inl gone)
  | inr (r, e) ↦ elim (Bool-cases (is_empty r.accepted)) [
    | inr taken ↦ rw (e, settle_broadcast, taken) (refl, inl (r, e, not_empty r.accepted taken))
    | inl no_relay ↦ elim (Bool-cases (is_empty r.ambiguous)) [
      | inl all_answered ↦
          rw (e, settle_broadcast, no_relay, all_answered)
            (rejected-Means net built now db r e (is_empty-eq r.accepted no_relay)
              (is_empty-eq r.ambiguous all_answered))
      | inr some_silent ↦
          rw (e, settle_broadcast, no_relay, some_silent)
            (again-Means net built now db r e (is_empty-eq r.accepted no_relay)
              (not_empty r.ambiguous some_silent))
    ]
  ]
]
