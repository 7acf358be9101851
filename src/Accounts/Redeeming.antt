-- ===== src/Accounts/Redeeming.antt =====
-- The counter of a code's redemptions against the rows that the redemptions left: kept by
-- `recordRedemption`, `updateCode` and `createCodes` of src/accounts.ts.
use dash_faucet_cf.Base.{
  subst, ℕ, ◌≤◌, ◌≡◌, refl, String, Bool, true, false, ◌&&◌, List, [], ◌∷◌, ◌++◌, arith, Bool-cases,
  Option-cases, inl, inr, if◌then◌else◌, same, same→path, same_sym, same_refl, any, find, All,
}
use dash_faucet_cf.Db.{Db, CodeRow, Redemption}
use dash_faucet_cf.Db.Sql.{update_where, count_where, count_where-append}
use dash_faucet_cf.Accounts.{
  has_code_id, redeemed_by, redeem_once, record_redemption, CodePatch, patched, update_code,
}

abbrev of_code : String → Redemption → Bool
of_code id r = same r.code_id id

-- The code's counter is the number of redemptions on record.
abbrev pub IsCounted : List Redemption → CodeRow → Type 0
IsCounted redemptions c = c.redemptions ≡ count_where (λ r. same r.code_id c.id) redemptions

abbrev pub IsAudited : List CodeRow → List Redemption → Type 0
IsAudited codes redemptions = All (IsCounted redemptions) codes

-- No address has redeemed the same code twice.
abbrev pub IsOncePerAddress : List Redemption → Type 0
IsOncePerAddress redemptions =
    (id : String) → (address : String) → count_where (redeemed_by id address) redemptions ≤ 1

update-IsAudited :
    (id : String) (new : Redemption) (codes : List CodeRow) (redemptions : List Redemption)
    → same new.code_id id ≡ true
    → IsAudited codes redemptions
    → IsAudited (update_where (has_code_id id) redeem_once codes) (redemptions ++ new ∷ [])
update-IsAudited id new [] redemptions e h = tt
update-IsAudited id new (c ∷ codes) redemptions e (counted, rest) =
    (now_counted, update-IsAudited id new codes redemptions e rest)
  where
    now_counted :
        IsCounted (redemptions ++ new ∷ []) (if has_code_id id c then redeem_once c else c)
    now_counted = elim (Bool-cases (has_code_id id c)) [
      | inl his ↦ rw his (
          ground (
            arith,
            count_where-append (λ r. same r.code_id c.id) redemptions (new ∷ []),
            same_sym c.id id,
            same→path new.code_id id e,
          ))
      | inr other ↦ rw other (
          ground (
            arith,
            count_where-append (λ r. same r.code_id c.id) redemptions (new ∷ []),
            same_sym c.id id,
            same→path new.code_id id e,
          ))
    ]

pub record_redemption-IsAudited :
    (code : CodeRow) (address txid : String) (satoshis now : ℕ) (db : Db)
    → IsAudited db.codes db.code_redemptions
    → IsAudited
        (record_redemption code address txid satoshis now db).codes
        (record_redemption code address txid satoshis now db).code_redemptions
unfolding record_redemption
record_redemption-IsAudited code address txid satoshis now db h =
    update-IsAudited code.id _ db.codes db.code_redemptions (same_refl code.id) h

count_where-none {ℓ} :
    {A : Type ℓ} (p : A → Bool) (xs : List A) → any p xs ≡ false → count_where p xs ≡ 0
count_where-none p [] h = refl
count_where-none p (x ∷ xs) h = ground (arith, count_where-none p xs)

pub record_redemption-IsOncePerAddress :
    (code : CodeRow) (address txid : String) (satoshis now : ℕ) (db : Db)
    → any (redeemed_by code.id address) db.code_redemptions ≡ false
    → IsOncePerAddress db.code_redemptions
    → IsOncePerAddress (record_redemption code address txid satoshis now db).code_redemptions
unfolding record_redemption
record_redemption-IsOncePerAddress code address txid satoshis now db fresh h id a =
    elim (Bool-cases (same code.id id && same address a)) [
      | inl this ↦ ground (
        arith,
        count_where-append (redeemed_by id a) db.code_redemptions (new ∷ []),
        subst (λ i. count_where (redeemed_by i a) db.code_redemptions ≡ 0)
            (same→path code.id id (ground arith))
            (subst (λ x. count_where (redeemed_by code.id x) db.code_redemptions ≡ 0)
              (same→path address a (ground arith))
              (count_where-none (redeemed_by code.id address) db.code_redemptions fresh)),
      )
      | inr other ↦
          ground
            (arith, count_where-append (redeemed_by id a) db.code_redemptions (new ∷ []), h id a)
    ]
  where
    new : Redemption
    new = record {
      code_id = code.id;
      address = address;
      txid = txid;
      satoshis = satoshis;
      created_at = now;
    }

patch-IsAudited :
    (id : String) (patch : CodePatch) (by : String) (now : ℕ) (current : CodeRow)
    (codes : List CodeRow) (redemptions : List Redemption)
    → IsAudited codes redemptions
    → IsAudited (update_where (has_code_id id) (patched patch by now current) codes) redemptions
patch-IsAudited id patch by now current [] redemptions h = tt
patch-IsAudited id patch by now current (c ∷ codes) redemptions (counted, rest) =
    (ground arith, patch-IsAudited id patch by now current codes redemptions rest)

-- Where every code's counter equals its redemptions on record, it does after an edit of a code.
pub update_code-IsAudited :
    (id : String) (patch : CodePatch) (by : String) (now : ℕ) (db : Db)
    → IsAudited db.codes db.code_redemptions
    → IsAudited
        (update_code id patch by now db).0.codes
        (update_code id patch by now db).0.code_redemptions
unfolding update_code
update_code-IsAudited id patch by now db h = elim (Option-cases (find (has_code_id id) db.codes)) [
  | inl unknown ↦ rw (unknown, update_code) h
  | inr (current, found) ↦
      rw (found, update_code)
        (patch-IsAudited id patch by now current db.codes db.code_redemptions h)
]
