-- ===== src/Treasury/Keys/Owned.antt =====
-- The keys that users issue for themselves: the cap on live keys, and whose keys a revocation
-- reaches (`issueOwnKey` and `revokeApiKey` of src/treasury.ts).
use dash_faucet_cf.Base.{
  ℕ, ◌+◌, ◌≤◌, ◌<◌, ◌≡◌, refl, sym, ◌∙◌, ◌⊎◌, inl, inr, String, Bool, true, false, ◌&&◌, not,
  Option, none, some, List, [], ◌∷◌, arith, Bool-cases, Option-cases, ltb, leb, same_refl, filter,
  find, any,
}
use dash_faucet_cf.Db.{Db, ApiKeyRow}
use dash_faucet_cf.Db.Sql.{update_where, count_where, count_where-append}
use dash_faucet_cf.Accounts.{or_else}
use dash_faucet_cf.Treasury.Keys.{
  has_id, live_of, is_null, is_theirs, revoked, revocable, revoke_api_key, replaceable, minted_row,
  mint_key, own_key, IssueInput, Issued, issued, at_limit, not_found, rotate_key, issue_new_key,
  issue_own_key,
}

abbrev pub live_count : String → ℕ → Db → ℕ
live_count who now db = count_where (live_of who now) db.api_keys

abbrev retired : String → Option String → ℕ → List ApiKeyRow → List ApiKeyRow
retired id by now rows = update_where (has_id id) (revoked now by) rows

retired-le :
    (who id : String) (by : Option String) (now : ℕ) (rows : List ApiKeyRow)
    → count_where (live_of who now) (retired id by now rows) ≤ count_where (live_of who now) rows
retired-le who id by now [] = omega arith
retired-le who id by now (r ∷ rows) = elim (Bool-cases (has_id id r)) [
  | inl his ↦ rw his (ground (arith, retired-le who id by now rows))
  | inr other ↦ rw other (ground (arith, retired-le who id by now rows))
]

retired-lt :
    (who id : String) (by : Option String) (now : ℕ) (rows : List ApiKeyRow) (row : ApiKeyRow)
    → find (replaceable id who now) rows ≡ some row
    → count_where (live_of who now) (retired id by now rows) < count_where (live_of who now) rows
retired-lt who id by now [] row found = absurd (cc)
retired-lt who id by now (r ∷ rows) row found = elim (Bool-cases (replaceable id who now r)) [
  | inl this ↦ ground (arith, retired-le who id by now rows)
  | inr other ↦ ground (arith, retired-lt who id by now rows row)
]

own_key-live :
    (input : IssueInput) (label : String) (now : ℕ)
    → live_of input.who now (minted_row (own_key input label now) now) ≡ true
own_key-live input label now = elim (Bool-cases (ltb 0 input.ttl_ms)) [
  | inl limited ↦ rw limited (ground (arith, same_refl input.who))
  | inr forever ↦ rw forever (ground (arith, same_refl input.who))
]

mint_key-live_count :
    (input : IssueInput) (label : String) (now : ℕ) (db : Db)
    → live_count input.who now (mint_key (own_key input label now) now db)
      ≡ live_count input.who now db + 1
unfolding mint_key
mint_key-live_count input label now db =
    count_where-append (live_of input.who now) db.api_keys
      (minted_row (own_key input label now) now ∷ [])
    ∙ rw (own_key-live input label now) refl

-- What each outcome of an issue says of the user's live keys. `replacing` is the key to rotate.
abbrev pub IssueMeans : IssueInput → Option String → ℕ → Db → Db × Issued → Type 0
IssueMeans input none now db (db', issued) =
    (live_count input.who now db' ≡ live_count input.who now db + 1)
    × (live_count input.who now db' ≤ input.max_active)
IssueMeans input (some old) now db (db', issued) =
    live_count input.who now db' ≤ live_count input.who now db
IssueMeans input none now db (db', at_limit) =
    (db' ≡ db) × (input.max_active ≤ live_count input.who now db)
IssueMeans input (some old) now db (db', at_limit) = ⊥
IssueMeans input none now db (db', not_found) = ⊥
IssueMeans input (some old) now db (db', not_found) =
    (db' ≡ db) × (find (replaceable old input.who now) db.api_keys ≡ none)

issue_new_key-IssueMeans :
    (input : IssueInput) (now : ℕ) (db : Db)
    → IssueMeans input none now db (issue_new_key input now db)
unfolding issue_new_key
issue_new_key-IssueMeans input now db =
    elim (Bool-cases (leb input.max_active (live_count input.who now db))) [
      | inl over ↦ rw over (refl, ground arith)
      | inr below ↦ rw below (
        mint_key-live_count input (or_else input.label "API key") now db,
        ground (arith, mint_key-live_count input (or_else input.label "API key") now db),
      )
    ]

rotate_key-IssueMeans :
    (input : IssueInput) (old : String) (now : ℕ) (db : Db)
    → IssueMeans input (some old) now db (rotate_key input old now db)
unfolding rotate_key
rotate_key-IssueMeans input old now db =
    elim (Option-cases (find (replaceable old input.who now) db.api_keys)) [
      | inl unknown ↦ rw (unknown, rotate_key) (refl, unknown)
      | inr (row, found) ↦
          rw (found, rotate_key)
            (ground (
              arith,
              mint_key-live_count input row.label now
                  record db { api_keys = retired old (some input.who) now db.api_keys },
              retired-lt input.who old (some input.who) now db.api_keys row found,
            ))
    ]

-- Issuing a key adds one live key to a user who has fewer than the cap, and leaves the user within
-- it; at the cap it changes nothing; rotating a live key of the user's own never adds to the
-- user's live keys; for any other key it changes nothing.
pub issue_own_key-IssueMeans :
    (input : IssueInput) (now : ℕ) (db : Db)
    → IssueMeans input input.replacing now db (issue_own_key input now db)
unfolding issue_own_key
issue_own_key-IssueMeans input now db = go input.replacing
  where
    go :
        (replacing : Option String)
        → IssueMeans input replacing now db (elim replacing [
          | none ↦ issue_new_key input now db
          | some old ↦ rotate_key input old now db
        ])
    go none = issue_new_key-IssueMeans input now db
    go (some old) = rotate_key-IssueMeans input old now db

-- Who is noted as the one that revoked a key: the owner, where no one else is given.
abbrev pub or_owner : (owner by : Option String) → Option String
or_owner owner none = owner
or_owner owner (some b) = some b

abbrev pub in_reach : String → Option String → ApiKeyRow → Bool
in_reach id owner r = has_id id r && is_theirs owner r

revoke-others :
    (id : String) (owner by : Option String) (now : ℕ) (rows : List ApiKeyRow)
    → filter
        (λ r. not (in_reach id owner r))
        (update_where (revocable id owner) (revoked now by) rows)
      ≡ filter (λ r. not (in_reach id owner r)) rows
revoke-others id owner by now [] = refl
revoke-others id owner by now (r ∷ rows) = elim (Bool-cases (in_reach id owner r)) [
  | inl his ↦ elim (Bool-cases (is_null r.revoked_at)) [
    | inl live ↦ ground (arith, revoke-others id owner by now rows)
    | inr gone ↦ ground (arith, revoke-others id owner by now rows)
  ]
  | inr other ↦ ground (arith, revoke-others id owner by now rows)
]

revoke-reached :
    (id : String) (owner by : Option String) (now : ℕ) (rows : List ApiKeyRow)
    → any
        (λ r. in_reach id owner r && is_null r.revoked_at)
        (update_where (revocable id owner) (revoked now by) rows)
      ≡ false
revoke-reached id owner by now [] = refl
revoke-reached id owner by now (r ∷ rows) = elim (Bool-cases (revocable id owner r)) [
  | inl his ↦ rw his (ground (arith, revoke-reached id owner by now rows))
  | inr other ↦ rw other (ground (arith, revoke-reached id owner by now rows))
]

-- Row by row: an unrevoked key within reach is revoked now, by the given user; any other row, also
-- of a key that is revoked already, is as it was.
abbrev pub AreRevoked :
    String → (owner by : Option String) → ℕ → (before after : List ApiKeyRow) → Type 0
AreRevoked id owner by now [] [] = Unit
AreRevoked id owner by now (r ∷ rs) (r' ∷ rs') =
    ((((in_reach id owner r && is_null r.revoked_at) ≡ true)
        × (r' ≡ record r { revoked_at = some now; revoked_by = or_owner owner by }))
      ⊎ (((in_reach id owner r && is_null r.revoked_at) ≡ false) × (r' ≡ r)))
    × AreRevoked id owner by now rs rs'
AreRevoked id owner by now [] (r' ∷ rs') = ⊥
AreRevoked id owner by now (r ∷ rs) [] = ⊥

and_swap : (a b c : Bool) → (a && (b && c)) ≡ ((a && c) && b)
and_swap true true true = refl
and_swap true true false = refl
and_swap true false true = refl
and_swap true false false = refl
and_swap false b c = refl

reordered :
    (id : String) (owner : Option String) (r : ApiKeyRow)
    → revocable id owner r ≡ (in_reach id owner r && is_null r.revoked_at)
reordered id owner r = and_swap (has_id id r) (is_null r.revoked_at) (is_theirs owner r)

revoke-AreRevoked :
    (id : String) (owner by : Option String) (now : ℕ) (rows : List ApiKeyRow)
    → AreRevoked id owner by now rows
        (update_where (revocable id owner) (revoked now (or_owner owner by)) rows)
revoke-AreRevoked id owner by now [] = tt
revoke-AreRevoked id owner by now (r ∷ rows) = elim (Bool-cases (revocable id owner r)) [
  | inl his ↦
      rw his (inl (sym (reordered id owner r) ∙ his, refl), revoke-AreRevoked id owner by now rows)
  | inr other ↦
      rw other
        (inr (sym (reordered id owner r) ∙ other, refl), revoke-AreRevoked id owner by now rows)
]

revoke-any :
    (id : String) (owner : Option String) (rows : List ApiKeyRow)
    → any (revocable id owner) rows ≡ any (λ r. in_reach id owner r && is_null r.revoked_at) rows
revoke-any id owner [] = refl
revoke-any id owner (r ∷ rows) = rw (reordered id owner r, revoke-any id owner rows) refl

-- A revocation leaves no unrevoked key with the id that its owner, if one is named, owns, and it
-- leaves every other key as it was, in the same order; row by row, an unrevoked key in its reach
-- is revoked now by the one who asks, or by the owner where no other is named, and any other row,
-- also that of a key that is revoked already, is as it was; and the answer says whether there was
-- an unrevoked key in its reach.
pub revoke_api_key-reaches :
    (id : String) (owner by : Option String) (now : ℕ) (db : Db)
    → (any
          (λ r. in_reach id owner r && is_null r.revoked_at)
          (revoke_api_key id owner by now db).0.api_keys
        ≡ false)
      × (filter (λ r. not (in_reach id owner r)) (revoke_api_key id owner by now db).0.api_keys
          ≡ filter (λ r. not (in_reach id owner r)) db.api_keys)
      × AreRevoked id owner by now db.api_keys (revoke_api_key id owner by now db).0.api_keys
      × ((revoke_api_key id owner by now db).1
          ≡ any (λ r. in_reach id owner r && is_null r.revoked_at) db.api_keys)
unfolding revoke_api_key
revoke_api_key-reaches id owner by now db = (
  revoke-reached id owner _ now db.api_keys,
  revoke-others id owner _ now db.api_keys,
  revoke-AreRevoked id owner by now db.api_keys,
  revoke-any id owner db.api_keys,
)
