-- ===== src/Accounts.antt =====
-- src/accounts.ts: redemption codes. Identities, listing and the display forms of codes stay out.
pub mod Redeeming
pub mod Creating
use dash_faucet_cf.Base.{
  ℕ, ◌+◌, String, Bool, true, false, ◌&&◌, ◌||◌, Option, none, some, List, [], ◌∷◌, ◌++◌, leb, same,
  if◌then◌else◌, find, any,
}
use dash_faucet_cf.Db.{Db, CodeRow, CodeKind, Redemption}
use dash_faucet_cf.Db.Sql.{update_where}

abbrev pub has_code_key : String → CodeRow → Bool
has_code_key key r = same r.code_key key

abbrev pub has_code_id : String → CodeRow → Bool
has_code_id id r = same r.id id

abbrev pub redeemed_by : String → String → Redemption → Bool
redeemed_by id address r = same r.code_id id && same r.address address

-- `expires_at !== null && expires_at <= now`
abbrev pub has_expired : Option ℕ → ℕ → Bool
has_expired expires_at now = elim expires_at [ none ↦ false | some at ↦ leb at now ]

pub data CodeCheck : Type 0 where
  valid : CodeRow → CodeCheck
  invalid used : CodeCheck

-- Unknown, disabled, expired and fully redeemed codes all read `invalid`.
unfoldable pub check_row : Db → CodeRow → String → ℕ → CodeCheck
check_row db row address now =
    if row.disabled || (has_expired row.expires_at now || leb row.max_redemptions row.redemptions)
    then invalid
    else if any (redeemed_by row.id address) db.code_redemptions
    then used
    else valid row

-- `checkCode`
unfoldable pub check_code : Db → String → String → ℕ → CodeCheck
unfolding check_row
check_code db key address now = elim (find (has_code_key key) db.codes) [
  | none ↦ invalid
  | some row ↦ check_row db row address now
]

abbrev pub redeem_once : CodeRow → CodeRow
redeem_once r = record r { redemptions = r.redemptions + 1 }

-- `recordRedemption`
unfoldable pub record_redemption : CodeRow → String → String → ℕ → ℕ → Db → Db
record_redemption code address txid satoshis now db = record db {
  code_redemptions =
      db.code_redemptions
      ++ record {
        code_id = code.id;
        address = address;
        txid = txid;
        satoshis = satoshis;
        created_at = now;
      }
        ∷ [];
  codes = update_where (has_code_id code.id) redeem_once db.codes;
}

-- `NewCodes`; a code's id and its batch's are random, and its key is `codeKey(code)`.
pub record NewCode : Type 0 where
  pub id : String
  pub code : String
  pub code_key : String

pub record NewCodes : Type 0 where
  pub kind : CodeKind
  pub codes : List NewCode
  pub label : String
  pub amount_sats : ℕ
  pub max_redemptions : ℕ
  pub expires_at : Option ℕ
  pub created_by : String

-- The first code whose key is taken.
unfoldable pub first_taken : List CodeRow → List NewCode → Option String
first_taken rows [] = none
first_taken rows (c ∷ cs) =
    if any (has_code_key c.code_key) rows then some c.code else first_taken rows cs

abbrev pub code_row : NewCodes → Option String → ℕ → NewCode → CodeRow
code_row input batch now c = record {
  id = c.id;
  code = c.code;
  code_key = c.code_key;
  kind = input.kind;
  label = input.label;
  amount_sats = input.amount_sats;
  max_redemptions = input.max_redemptions;
  redemptions = 0;
  expires_at = input.expires_at;
  disabled = false;
  batch = batch;
  created_by = input.created_by;
  created_at = now;
  updated_at = now;
  updated_by = none;
}

-- The columns `id` and `code_key` are unique.
abbrev pub clashes : NewCode → CodeRow → Bool
clashes c r = same r.id c.id || same r.code_key c.code_key

-- The insertions, up to the first that breaks a unique column; whether all went through.
unfoldable pub insert_codes :
    NewCodes → Option String → ℕ → List NewCode → List CodeRow → List CodeRow × Bool
insert_codes input batch now [] rows = (rows, true)
insert_codes input batch now (c ∷ cs) rows =
    let rest = insert_codes input batch now cs (rows ++ code_row input batch now c ∷ []) in
    if any (clashes c) rows then (rows, false) else rest

abbrev pub batch_of : List NewCode → String → Option String
batch_of [] batch = none
batch_of (c ∷ []) batch = none
batch_of (c ∷ d ∷ cs) batch = some batch

-- `threw` is the exception of an insertion that breaks a unique column.
pub data Creation : Type 0 where
  created threw : Creation
  conflict : String → Creation

-- `createCodes`, with the random id of the batch
unfoldable pub create_codes : NewCodes → String → ℕ → Db → Db × Creation
create_codes input batch now db = elim (first_taken db.codes input.codes) [
  | some code ↦ (db, conflict code)
  | none ↦
      let (codes, done) =
        insert_codes input (batch_of input.codes batch) now input.codes db.codes in
      (record db { codes = codes }, if done then created else threw)
]

-- `undefined` fields of a patch are `none`; `expiresAt` may be set to null.
pub record CodePatch : Type 0 where
  pub label : Option String
  pub amount_sats : Option ℕ
  pub max_redemptions : Option ℕ
  pub expires_at : Option (Option ℕ)
  pub disabled : Option Bool

-- `patch.x ?? current.x`
abbrev pub or_else {ℓ} : {A : Type ℓ} → Option A → A → A
or_else o d = elim o [ none ↦ d | some a ↦ a ]

abbrev pub patched : CodePatch → String → ℕ → CodeRow → CodeRow → CodeRow
patched patch by now current r = record r {
  label = or_else patch.label current.label;
  amount_sats = or_else patch.amount_sats current.amount_sats;
  max_redemptions = or_else patch.max_redemptions current.max_redemptions;
  expires_at = or_else patch.expires_at current.expires_at;
  disabled = or_else patch.disabled current.disabled;
  updated_at = now;
  updated_by = some by;
}

-- `updateCode`: the tables after it, and the row as it then stands.
unfoldable pub update_code : String → CodePatch → String → ℕ → Db → Db × Option CodeRow
update_code id patch by now db = elim (find (has_code_id id) db.codes) [
  | none ↦ (db, none)
  | some current ↦
      let codes = update_where (has_code_id id) (patched patch by now current) db.codes in
      (record db { codes = codes }, find (has_code_id id) codes)
]
