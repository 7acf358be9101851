-- ===== src/Accounts/Creating.antt =====
-- What `createCodes` of src/accounts.ts writes.
use dash_faucet_cf.Base.{
  ℕ, zero, suc, ◌<◌, ◌≡◌, refl, sym, ◌∙◌, inl, inr, String, Bool, true, false, Option, some, List,
  [], ◌∷◌, ◌++◌, map, arith, Bool-cases, Option-cases, if◌then◌else◌, same_sym, any, take, length,
}
use mathlib.Core.List.{append_assoc, append-nil}
use dash_faucet_cf.Db.{Db, CodeRow}
use dash_faucet_cf.Accounts.{
  has_code_key, NewCode, NewCodes, first_taken, code_row, clashes, insert_codes, batch_of, Creation,
  created, threw, conflict, create_codes,
}

-- No two codes share a key.
abbrev pub HasUniqueKeys : List CodeRow → Type 0
HasUniqueKeys [] = Unit
HasUniqueKeys (c ∷ rows) = (any (has_code_key c.code_key) rows ≡ false) × HasUniqueKeys rows

any-append_false :
    (p : CodeRow → Bool) (rows : List CodeRow) (r : CodeRow)
    → any p rows ≡ false
    → p r ≡ false
    → any p (rows ++ r ∷ []) ≡ false
any-append_false p [] r h fails = ground arith
any-append_false p (c ∷ rows) r h fails = ground (arith, any-append_false p rows r)

append-HasUniqueKeys :
    (rows : List CodeRow) (r : CodeRow)
    → HasUniqueKeys rows
    → any (has_code_key r.code_key) rows ≡ false
    → HasUniqueKeys (rows ++ r ∷ [])
append-HasUniqueKeys [] r h fresh = (refl, tt)
append-HasUniqueKeys (c ∷ rows) r (alone, h) fresh = (
  any-append_false (has_code_key c.code_key) rows r alone
      (ground (arith, same_sym r.code_key c.code_key)),
  append-HasUniqueKeys rows r h (ground arith),
)

clashes-key :
    (c : NewCode) (rows : List CodeRow)
    → any (clashes c) rows ≡ false
    → any (has_code_key c.code_key) rows ≡ false
clashes-key c [] h = refl
clashes-key c (r ∷ rows) h = ground (arith, clashes-key c rows)

module _ (input : NewCodes) (batch : Option String) (now : ℕ) where
  abbrev rows_of : List NewCode → List CodeRow
  rows_of cs = map (code_row input batch now) cs

  insert_codes-HasUniqueKeys :
      (cs : List NewCode) (rows : List CodeRow)
      → HasUniqueKeys rows
      → HasUniqueKeys (insert_codes input batch now cs rows).0
  unfolding insert_codes
  insert_codes-HasUniqueKeys [] rows h = h
  insert_codes-HasUniqueKeys (c ∷ cs) rows h = elim (Bool-cases (any (clashes c) rows)) [
    | inl clash ↦ rw clash h
    | inr fresh ↦ rw fresh (
        insert_codes-HasUniqueKeys cs _
          (append-HasUniqueKeys rows (code_row input batch now c) h (clashes-key c rows fresh)))
  ]

  -- The rows that went in: all of them, or those before a clash.
  abbrev pub IsPrefixOf : List CodeRow → List NewCode → List CodeRow × Bool → Type 0
  IsPrefixOf rows cs (after, true) = after ≡ rows ++ rows_of cs
  IsPrefixOf rows cs (after, false) =
      (n : ℕ) × (n < length cs) × (after ≡ rows ++ rows_of (take n cs))

  shift :
      (c : NewCode) (cs : List NewCode) (rows : List CodeRow) (out : List CodeRow × Bool)
      → IsPrefixOf (rows ++ code_row input batch now c ∷ []) cs out
      → IsPrefixOf rows (c ∷ cs) out
  shift c cs rows (after, true) h =
      h ∙ append_assoc rows (code_row input batch now c ∷ []) (rows_of cs)
  shift c cs rows (after, false) (n, less, h) = (
    suc n,
    omega (arith, less),
    h ∙ append_assoc rows (code_row input batch now c ∷ []) (rows_of (take n cs)),
  )

  insert_codes-IsPrefixOf :
      (cs : List NewCode) (rows : List CodeRow)
      → IsPrefixOf rows cs (insert_codes input batch now cs rows)
  unfolding insert_codes
  insert_codes-IsPrefixOf [] rows = sym (append-nil rows)
  insert_codes-IsPrefixOf (c ∷ cs) rows = elim (Bool-cases (any (clashes c) rows)) [
    | inl clash ↦ rw clash (zero, omega arith, sym (append-nil rows))
    | inr fresh ↦
        rw fresh
          (shift c cs rows _ (insert_codes-IsPrefixOf cs (rows ++ code_row input batch now c ∷ [])))
  ]

-- What each outcome of a creation says of the table of codes.
abbrev pub CreationMeans : NewCodes → Option String → ℕ → Db → Db × Creation → Type 0
CreationMeans input batch now db (db', created) =
    db'.codes ≡ db.codes ++ map (code_row input batch now) input.codes
CreationMeans input batch now db (db', threw) =
    (n : ℕ) × (n < length input.codes)
    × (db'.codes ≡ db.codes ++ map (code_row input batch now) (take n input.codes))
CreationMeans input batch now db (db', conflict code) =
    (db' ≡ db) × (first_taken db.codes input.codes ≡ some code)

-- Where no two codes share a key, none do after a creation; a creation that succeeds adds the row
-- of every code, in order, after the rows that were there; one that meets a taken key changes
-- nothing and names the first such code; and one that throws has added the rows of fewer than all
-- codes, from the first on.
pub create_codes-CreationMeans :
    (input : NewCodes) (batch : String) (now : ℕ) (db : Db)
    → HasUniqueKeys db.codes
    → CreationMeans input (batch_of input.codes batch) now db (create_codes input batch now db)
      × HasUniqueKeys (create_codes input batch now db).0.codes
unfolding create_codes
create_codes-CreationMeans input batch now db unique =
    elim (Option-cases (first_taken db.codes input.codes)) [
      | inr (code, taken) ↦ rw (taken, create_codes) ((refl, taken), unique)
      | inl all_new ↦
          rw (all_new, create_codes)
            (
              done (insert_codes input (batch_of input.codes batch) now input.codes db.codes) (
                  insert_codes-IsPrefixOf input (batch_of input.codes batch) now input.codes
                    db.codes),
              insert_codes-HasUniqueKeys input (batch_of input.codes batch) now input.codes db.codes
                  unique,
            )
    ]
  where
    done :
        (out : List CodeRow × Bool)
        → IsPrefixOf input (batch_of input.codes batch) now db.codes input.codes out
        → CreationMeans input
            (batch_of input.codes batch)
            now
            db
            (record db { codes = out.0 }, if out.1 then created else threw)
    done (after, true) h = h
    done (after, false) h = h
