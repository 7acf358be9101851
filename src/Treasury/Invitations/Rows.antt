-- ===== src/Treasury/Invitations/Rows.antt =====
-- Rows of the inventory by their id, which is the table's primary key, and rows that were read before
-- a loop changes them one by one.
use dash_faucet_cf.Base.{
  ℕ, zero, suc, ◌≤◌, ◌<◌, ◌≡◌, refl, ◌∙◌, ap, String, Bool, true, false, Option, none, some, ◌||◌,
  not, List, [], ◌∷◌, arith, same, same_sym, same_refl, same→path, filter, take, all, any, All,
  All-map, All-filter, Bool-cases, inl, inr,
}
use dash_faucet_cf.Base.Sort.{sort}
use dash_faucet_cf.Db.{
  InvitationRow, VoucherState, broadcast_unknown, awaiting_chainlock, available, issued, claimed,
  failed,
}
use dash_faucet_cf.Db.Sql.{update_where, count_where, count_where-filter-le}
use dash_faucet_cf.Db.Selecting.{
  count_where-take-le, count_where-sort, count-zero→All, All-take, All-sort,
}
use dash_faucet_cf.Treasury.Invitations.{in_state, is_state, has_voucher_id}

-- No two rows have one id.
abbrev pub HasUniqueIds : List InvitationRow → Type 0
HasUniqueIds rows = (id : String) → count_where (has_voucher_id id) rows ≤ 1

-- Every row with the id is in the state.
abbrev pub stands : String → VoucherState → List InvitationRow → Bool
stands id s rows = all (λ x. not (has_voucher_id id x) || in_state s x) rows

abbrev pub Stands : List InvitationRow → InvitationRow → Type 0
Stands rows r = stands r.id r.state rows ≡ true

-- The table has a row with the id.
abbrev pub IsIn : List InvitationRow → InvitationRow → Type 0
IsIn table r = any (has_voucher_id r.id) table ≡ true

-- Rows that were read: the table still has them, in their states, and they are of different ids.
pub record IsRead (table read : List InvitationRow) : Type 0 where
  pub unique : HasUniqueIds table
  pub distinct : HasUniqueIds read
  pub standing : All (Stands table) read
  pub present : All (IsIn table) read

-- The row at a position.
abbrev pub row_at : List InvitationRow → ℕ → Option InvitationRow
row_at [] i = none
row_at (x ∷ xs) zero = some x
row_at (x ∷ xs) (suc i) = row_at xs i

-- A row that is alone with its id stands, and so do all of a table with unique ids.
none→stands :
    (id : String) (s : VoucherState) (xs : List InvitationRow)
    → All (λ x. has_voucher_id id x ≡ false) xs
    → stands id s xs ≡ true
none→stands id s [] h = refl
none→stands id s (x ∷ xs) (p, h) = ground (arith, none→stands id s xs)

is_state_self : (s : VoucherState) → is_state s s ≡ true
is_state_self broadcast_unknown = refl
is_state_self awaiting_chainlock = refl
is_state_self available = refl
is_state_self issued = refl
is_state_self claimed = refl
is_state_self failed = refl

in_state_self : (x : InvitationRow) → in_state x.state x ≡ true
in_state_self x = is_state_self x.state

Stands-cons :
    (x : InvitationRow) (xs : List InvitationRow) (r : InvitationRow)
    → has_voucher_id x.id r ≡ false
    → Stands xs r
    → Stands (x ∷ xs) r
Stands-cons x xs r other h = ground (arith, same_sym r.id x.id, same_sym x.id r.id)

others-Stand :
    (x : InvitationRow) (xs rs : List InvitationRow)
    → All (λ r. has_voucher_id x.id r ≡ false) rs
    → All (Stands xs) rs
    → All (Stands (x ∷ xs)) rs
others-Stand x xs [] a h = tt
others-Stand x xs (r ∷ rs) (p, a) (q, h) = (Stands-cons x xs r p q, others-Stand x xs rs a h)

pub tail-HasUniqueIds :
    (x : InvitationRow) (xs : List InvitationRow) → HasUniqueIds (x ∷ xs) → HasUniqueIds xs
tail-HasUniqueIds x xs u id = ground (arith, u id)

pub head-alone :
    (x : InvitationRow) (xs : List InvitationRow)
    → HasUniqueIds (x ∷ xs)
    → All (λ r. has_voucher_id x.id r ≡ false) xs
head-alone x xs u = count-zero→All (has_voucher_id x.id) xs (ground (arith, u x.id, same_refl x.id))

All-Stands : (xs : List InvitationRow) → HasUniqueIds xs → All (Stands xs) xs
All-Stands [] u = tt
All-Stands (x ∷ xs) u =
    let alone = head-alone x xs u in
    (
      ground (arith, same_refl x.id, in_state_self x, none→stands x.id x.state xs alone),
      others-Stand x xs xs alone (All-Stands xs (tail-HasUniqueIds x xs u)),
    )

All-IsIn : (xs : List InvitationRow) → All (IsIn xs) xs
All-IsIn [] = tt
All-IsIn (x ∷ xs) = (
  ground (arith, same_refl x.id),
  All-map {P = IsIn xs} {Q = IsIn (x ∷ xs)} (λ r h. ground arith) xs (All-IsIn xs),
)

-- What a query selects was read.
pub selected-IsRead :
    (p : InvitationRow → Bool) (table : List InvitationRow)
    → HasUniqueIds table
    → IsRead table (filter p table)
selected-IsRead p table u = record {
  unique = u;
  distinct = λ id. omega (arith, u id, count_where-filter-le (has_voucher_id id) p table);
  standing = All-filter (Stands table) p table (All-Stands table u);
  present = All-filter (IsIn table) p table (All-IsIn table);
}

pub limited-IsRead :
    (n : ℕ) (before : InvitationRow → InvitationRow → Bool) (table rows : List InvitationRow)
    → IsRead table rows
    → IsRead table (take n (sort before rows))
limited-IsRead n before table rows h = record {
  unique = h.unique;
  distinct = λ id. omega (
    arith,
    h.distinct id,
    count_where-take-le (has_voucher_id id) n (sort before rows),
    count_where-sort (has_voucher_id id) before rows,
  );
  standing =
      All-take (Stands table) n (sort before rows) (All-sort (Stands table) before rows h.standing);
  present =
      All-take (IsIn table) n (sort before rows) (All-sort (IsIn table) before rows h.present);
}

-- A change that keeps the id of a row.
abbrev pub KeepsId : (InvitationRow → InvitationRow) → Type 0
KeepsId f = (x : InvitationRow) → (f x).id ≡ x.id

module _ (id : String) (f : InvitationRow → InvitationRow) (keeps : KeepsId f) where
  kept_id : (i : String) (x : InvitationRow) → has_voucher_id i (f x) ≡ has_voucher_id i x
  kept_id i x = ap (λ j. same j i) (keeps x)

  count-update :
      (i : String) (xs : List InvitationRow)
      → count_where (has_voucher_id i) (update_where (has_voucher_id id) f xs)
        ≡ count_where (has_voucher_id i) xs
  count-update i [] = refl
  count-update i (x ∷ xs) = ground (arith, kept_id i x, count-update i xs)

  pub update-HasUniqueIds :
      (xs : List InvitationRow)
      → HasUniqueIds xs
      → HasUniqueIds (update_where (has_voucher_id id) f xs)
  update-HasUniqueIds xs u i = omega (arith, u i, count-update i xs)

  update-stands :
      (i : String) (s : VoucherState) (xs : List InvitationRow)
      → same id i ≡ false
      → stands i s xs ≡ true
      → stands i s (update_where (has_voucher_id id) f xs) ≡ true
  update-stands i s [] other h = refl
  update-stands i s (x ∷ xs) other h = elim (Bool-cases (has_voucher_id id x)) [
    | inl hit ↦
        let apart : has_voucher_id i (f x) ≡ false =
          kept_id i x ∙ ap (λ j. same j i) (same→path x.id id hit) ∙ other in
        rw hit (ground (arith, apart, update-stands i s xs other))
    | inr miss ↦ rw miss (ground (arith, update-stands i s xs other))
  ]

  any-update :
      (i : String) (xs : List InvitationRow)
      → any (has_voucher_id i) xs ≡ true
      → any (has_voucher_id i) (update_where (has_voucher_id id) f xs) ≡ true
  any-update i [] h = h
  any-update i (x ∷ xs) h = ground (arith, kept_id i x, any-update i xs)

  update-All-IsIn :
      (xs rs : List InvitationRow)
      → All (IsIn xs) rs
      → All (IsIn (update_where (has_voucher_id id) f xs)) rs
  update-All-IsIn xs rs =
      All-map {P = IsIn xs} {Q = IsIn (update_where (has_voucher_id id) f xs)}
        (λ r h. any-update r.id xs h) rs

  update-All-Stands :
      (xs rs : List InvitationRow)
      → All (λ r. has_voucher_id id r ≡ false) rs
      → All (Stands xs) rs
      → All (Stands (update_where (has_voucher_id id) f xs)) rs
  update-All-Stands xs [] a h = tt
  update-All-Stands xs (r ∷ rs) (p, a) (q, h) =
      (update-stands r.id r.state xs (same_sym id r.id ∙ p) q, update-All-Stands xs rs a h)

-- The loop has changed the row that was read first.
pub update-IsRead :
    (r : InvitationRow) (f : InvitationRow → InvitationRow) (table rs : List InvitationRow)
    → KeepsId f
    → IsRead table (r ∷ rs)
    → IsRead (update_where (has_voucher_id r.id) f table) rs
update-IsRead r f table rs keeps h = record {
  unique = update-HasUniqueIds r.id f keeps table h.unique;
  distinct = tail-HasUniqueIds r rs h.distinct;
  standing = update-All-Stands r.id f keeps table rs (head-alone r rs h.distinct) (h.standing).1;
  present = update-All-IsIn r.id f keeps table rs (h.present).1;
}

-- The loop has left the row that was read first as it was.
pub skip-IsRead :
    (r : InvitationRow) (table rs : List InvitationRow) → IsRead table (r ∷ rs) → IsRead table rs
skip-IsRead r table rs h = record {
  unique = h.unique;
  distinct = tail-HasUniqueIds r rs h.distinct;
  standing = (h.standing).1;
  present = (h.present).1;
}

abbrev pub available_rows : List InvitationRow → ℕ
available_rows rows = count_where (in_state available) rows

-- A change that makes a row no longer available.
module _ (f : InvitationRow → InvitationRow)
    (spent : (x : InvitationRow) → in_state available (f x) ≡ false) where
  pub update-available-le :
      (p : InvitationRow → Bool) (xs : List InvitationRow)
      → available_rows (update_where p f xs) ≤ available_rows xs
  update-available-le p [] = omega arith
  update-available-le p (x ∷ xs) = ground (arith, spent x, update-available-le p xs)

  pub update-available-lt :
      (id : String) (xs : List InvitationRow)
      → any (has_voucher_id id) xs ≡ true
      → stands id available xs ≡ true
      → available_rows (update_where (has_voucher_id id) f xs) < available_rows xs
  update-available-lt id [] h k = absurd (cc)
  update-available-lt id (x ∷ xs) h k = elim (Bool-cases (has_voucher_id id x)) [
    | inl hit ↦
        let ready : in_state available x ≡ true = ground arith in
        rw (hit, ready, spent x) (omega (arith, update-available-le (has_voucher_id id) xs))
    | inr miss ↦ rw miss (ground (arith, update-available-lt id xs))
  ]

-- The row stands in the table.
abbrev pub IsRowOf : List InvitationRow → InvitationRow → Type 0
IsRowOf table row = (i : ℕ) × (row_at table i ≡ some row)

pub All-IsRowOf : (xs : List InvitationRow) → All (IsRowOf xs) xs
All-IsRowOf [] = tt
All-IsRowOf (x ∷ xs) = (
  (0, refl),
  All-map {P = IsRowOf xs} {Q = IsRowOf (x ∷ xs)} (λ r (i, at). (suc i, at)) xs (All-IsRowOf xs),
)
