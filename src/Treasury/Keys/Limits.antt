-- ===== src/Treasury/Keys/Limits.antt =====
-- The counters of an API key against the payouts on record (`recordKeyPayout` of src/treasury.ts).
use dash_faucet_cf.Base.{
  ℕ, ◌≡◌, refl, inl, inr, String, some, List, [], ◌∷◌, ◌++◌, arith, Bool-cases, if◌then◌else◌, same,
  same_sym, find, All, All-map, total, total-append,
}
use dash_faucet_cf.Db.{Db, ApiKeyRow, KeyPayout}
use dash_faucet_cf.Db.Sql.{update_where, count_where, count_where-append, find-All}
use dash_faucet_cf.Treasury.Keys.{has_hash, used_once, record_key_payout}

abbrev drawn_by : String → KeyPayout → ℕ
drawn_by id p = if same p.key_id id then p.satoshis else 0

-- The key's counters are the number and the total of its payouts on record.
abbrev pub IsTallied : List KeyPayout → ApiKeyRow → Type 0
IsTallied payouts k =
    (k.payouts ≡ count_where (λ p. same p.key_id k.id) payouts)
    × (k.paid_sats ≡ total (drawn_by k.id) payouts)

-- The hash and the id name the same row.
abbrev IsKeyedAs : ApiKeyRow → ApiKeyRow → Type 0
IsKeyedAs k j = same j.hash k.hash ≡ same j.id k.id

abbrev pub IsKeyTable : List ApiKeyRow → Type 0
IsKeyTable rows = All (λ k. All (IsKeyedAs k) rows) rows

update-IsTallied :
    (key : ApiKeyRow) (new : KeyPayout) (now : ℕ) (rows : List ApiKeyRow) (payouts : List KeyPayout)
    → new.key_id ≡ key.id
    → All (IsKeyedAs key) rows
    → All (IsTallied payouts) rows
    → All
        (IsTallied (payouts ++ new ∷ []))
        (update_where (has_hash key.hash) (used_once now new.satoshis) rows)
update-IsTallied key new now [] payouts e keyed h = tt
update-IsTallied key new now (k ∷ rows) payouts e (named, others) ((count, sum), rest) = (
  elim (Bool-cases (same k.hash key.hash)) [
    | inl this ↦ rw this (
        ground (
          arith,
          count_where-append (λ p. same p.key_id k.id) payouts (new ∷ []),
          total-append (drawn_by k.id) payouts (new ∷ []),
          same_sym key.id k.id,
          e,
        ))
    | inr other ↦ rw other (
        ground (
          arith,
          count_where-append (λ p. same p.key_id k.id) payouts (new ∷ []),
          total-append (drawn_by k.id) payouts (new ∷ []),
          same_sym key.id k.id,
          e,
        ))
  ],
  update-IsTallied key new now rows payouts e others rest,
)

module _ (P : ApiKeyRow → Type 0) (hash : String) (now satoshis : ℕ) where
  All-used_once :
      ((k : ApiKeyRow) → P k → P (used_once now satoshis k))
      → (rows : List ApiKeyRow) → All P rows
      → All P (update_where (has_hash hash) (used_once now satoshis) rows)
  All-used_once f [] h = tt
  All-used_once f (k ∷ rows) (p, h) = (
    elim (Bool-cases (has_hash hash k)) [ inl this ↦ rw this (f k p) | inr other ↦ rw other p ],
    All-used_once f rows h,
  )

pub record_key_payout-IsKeyTable :
    (key : ApiKeyRow) (txid address : String) (satoshis now : ℕ) (db : Db)
    → IsKeyTable db.api_keys
    → IsKeyTable (record_key_payout key txid address satoshis now db).api_keys
unfolding record_key_payout
record_key_payout-IsKeyTable key txid address satoshis now db h =
    All-used_once (λ k. All (IsKeyedAs k) (after.api_keys)) key.hash now satoshis (λ k all. all)
      db.api_keys
      (All-map
        (λ k all. All-used_once (IsKeyedAs k) key.hash now satoshis (λ j e. e) db.api_keys all)
        db.api_keys h)
  where
    after : Db
    after = record_key_payout key txid address satoshis now db

pub record_key_payout-IsTallied :
    (hash : String) (key : ApiKeyRow) (txid address : String) (satoshis now : ℕ) (db : Db)
    → find (has_hash hash) db.api_keys ≡ some key
    → IsKeyTable db.api_keys
    → All (IsTallied db.key_payouts) db.api_keys
    → All
        (IsTallied (record_key_payout key txid address satoshis now db).key_payouts)
        (record_key_payout key txid address satoshis now db).api_keys
unfolding record_key_payout
record_key_payout-IsTallied hash key txid address satoshis now db found keyed h =
    update-IsTallied key _ now db.api_keys db.key_payouts refl
      (find-All (λ k. All (IsKeyedAs k) db.api_keys) (has_hash hash) db.api_keys key found keyed) h
