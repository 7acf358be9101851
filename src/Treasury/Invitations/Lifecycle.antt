-- ===== src/Treasury/Invitations/Lifecycle.antt =====
-- The life of a voucher, as a state machine, and changes of the inventory that follow it.
use dash_faucet_cf.Base.{
  ◌≡◌, refl, sym, ◌∙◌, subst, ◌⊎◌, inl, inr, String, Bool, true, List, [], ◌∷◌, ◌++◌, arith, All,
  Bool-cases,
}
use dash_faucet_cf.Db.{
  InvitationRow, VoucherState, broadcast_unknown, awaiting_chainlock, available, issued, claimed,
  failed,
}
use dash_faucet_cf.Db.Sql.{update_where}
use dash_faucet_cf.Treasury.Invitations.{is_state, has_voucher_id}
use dash_faucet_cf.Treasury.Invitations.Rows.{stands}

-- The steps that a voucher may take.
pub data Step : VoucherState → VoucherState → Type 0 where
  relayed : Step broadcast_unknown awaiting_chainlock
  locked_unseen : Step broadcast_unknown available
  rejected : Step broadcast_unknown failed
  locked : Step awaiting_chainlock available
  handed : Step available issued
  claimed_first : Step available claimed
  unreadable : Step available failed
  claimed_late : Step issued claimed
  recycled : Step issued available

pub data Lives (s : VoucherState) : VoucherState → Type 0 where
  here : Lives s s
  next : {t u : VoucherState} → Lives s t → Step t u → Lives s u

pub Lives-trans : {s t u : VoucherState} → Lives s t → Lives t u → Lives s u
Lives-trans l here = l
Lives-trans l (next m e) = next (Lives-trans l m) e

-- The voucher is done with.
abbrev pub IsOver : VoucherState → Type 0
IsOver s = (s ≡ claimed) ⊎ (s ≡ failed)

claimed-ends : {t u : VoucherState} → Step t u → t ≡ claimed → u ≡ claimed
claimed-ends relayed h = absurd (cc)
claimed-ends locked_unseen h = absurd (cc)
claimed-ends rejected h = absurd (cc)
claimed-ends locked h = absurd (cc)
claimed-ends handed h = absurd (cc)
claimed-ends claimed_first h = refl
claimed-ends unreadable h = absurd (cc)
claimed-ends claimed_late h = refl
claimed-ends recycled h = absurd (cc)

failed-ends : {t u : VoucherState} → Step t u → t ≡ failed → u ≡ failed
failed-ends relayed h = absurd (cc)
failed-ends locked_unseen h = absurd (cc)
failed-ends rejected h = refl
failed-ends locked h = absurd (cc)
failed-ends handed h = absurd (cc)
failed-ends claimed_first h = absurd (cc)
failed-ends unreadable h = refl
failed-ends claimed_late h = absurd (cc)
failed-ends recycled h = absurd (cc)

-- Nothing follows the end.
pub Lives-over : {s t : VoucherState} → Lives s t → IsOver s → s ≡ t
Lives-over here over = refl
Lives-over (next l e) (inl h) = h ∙ sym (claimed-ends e (sym (Lives-over l (inl h)) ∙ h))
Lives-over (next l e) (inr h) = h ∙ sym (failed-ends e (sym (Lives-over l (inr h)) ∙ h))

-- A row and what became of it: the same voucher, further in its life, with its secret unless it is
-- done with.
pub record Follows (x y : InvitationRow) : Type 0 where
  pub same_id : y.id ≡ x.id
  pub same_txid : y.txid ≡ x.txid
  pub lives : Lives x.state y.state
  pub kept : ((y.cipher_hex ≡ x.cipher_hex) × (y.iv_hex ≡ x.iv_hex)) ⊎ IsOver y.state

pub Follows-refl : (x : InvitationRow) → Follows x x
Follows-refl x = record { same_id = refl; same_txid = refl; lives = here; kept = inl (refl, refl) }

kept_trans :
    (x y z : InvitationRow)
    → ((y.cipher_hex ≡ x.cipher_hex) × (y.iv_hex ≡ x.iv_hex)) ⊎ IsOver y.state
    → ((z.cipher_hex ≡ y.cipher_hex) × (z.iv_hex ≡ y.iv_hex)) ⊎ IsOver z.state
    → Lives y.state z.state
    → ((z.cipher_hex ≡ x.cipher_hex) × (z.iv_hex ≡ x.iv_hex)) ⊎ IsOver z.state
kept_trans x y z (inl (a, b)) (inl (c, d)) l = inl (c ∙ a, d ∙ b)
kept_trans x y z (inr over) k l = inr (subst IsOver (Lives-over l over) over)
kept_trans x y z (inl h) (inr over) l = inr over

pub Follows-trans : {x y z : InvitationRow} → Follows x y → Follows y z → Follows x z
Follows-trans {x} {y} {z} f g = record {
  same_id = g.same_id ∙ f.same_id;
  same_txid = g.same_txid ∙ f.same_txid;
  lives = Lives-trans f.lives g.lives;
  kept = kept_trans x y z f.kept g.kept g.lives;
}

-- A voucher that was minted since.
abbrev pub IsMinted : InvitationRow → Type 0
IsMinted y = Lives broadcast_unknown y.state

-- Every row has become what follows it, at its place; new ones stand at the end.
abbrev pub Evolves : List InvitationRow → List InvitationRow → Type 0
Evolves [] ys = All IsMinted ys
Evolves (x ∷ xs) [] = ⊥
Evolves (x ∷ xs) (y ∷ ys) = Follows x y × Evolves xs ys

pub Evolves-refl : (xs : List InvitationRow) → Evolves xs xs
Evolves-refl [] = tt
Evolves-refl (x ∷ xs) = (Follows-refl x, Evolves-refl xs)

IsMinted-trans : (ys zs : List InvitationRow) → All IsMinted ys → Evolves ys zs → All IsMinted zs
IsMinted-trans [] zs m e = e
IsMinted-trans (y ∷ ys) [] m e = absurd e
IsMinted-trans (y ∷ ys) (z ∷ zs) (l, m) (f, e) = (Lives-trans l f.lives, IsMinted-trans ys zs m e)

pub Evolves-trans : (xs ys zs : List InvitationRow) → Evolves xs ys → Evolves ys zs → Evolves xs zs
Evolves-trans [] ys zs d e = IsMinted-trans ys zs d e
Evolves-trans (x ∷ xs) [] zs d e = absurd d
Evolves-trans (x ∷ xs) (y ∷ ys) [] d e = absurd e
Evolves-trans (x ∷ xs) (y ∷ ys) (z ∷ zs) (f, d) (g, e) =
    (Follows-trans {x = x} {y = y} {z = z} f g, Evolves-trans xs ys zs d e)

pub mint-Evolves :
    (xs : List InvitationRow) (y : InvitationRow) → IsMinted y → Evolves xs (xs ++ y ∷ [])
mint-Evolves [] y m = (m, tt)
mint-Evolves (x ∷ xs) y m = (Follows-refl x, mint-Evolves xs y m)

pub is_state→path : (s t : VoucherState) → is_state s t ≡ true → t ≡ s
is_state→path broadcast_unknown broadcast_unknown h = refl
is_state→path awaiting_chainlock awaiting_chainlock h = refl
is_state→path available available h = refl
is_state→path issued issued h = refl
is_state→path claimed claimed h = refl
is_state→path failed failed h = refl
is_state→path s t h = cc

-- A change of the rows with an id, which are all in one state, that is a step of their life.
pub update-Evolves :
    (id : String) (s : VoucherState) (f : InvitationRow → InvitationRow)
    → ((x : InvitationRow) → x.state ≡ s → Follows x (f x))
    → (xs : List InvitationRow) → stands id s xs ≡ true
    → Evolves xs (update_where (has_voucher_id id) f xs)
update-Evolves id s f step [] h = tt
update-Evolves id s f step (x ∷ xs) h = elim (Bool-cases (has_voucher_id id x)) [
  | inl hit ↦ rw hit (
    step x (is_state→path s x.state (ground arith)),
    update-Evolves id s f step xs (ground arith),
  )
  | inr miss ↦ rw miss (Follows-refl x, update-Evolves id s f step xs (ground arith))
]

-- A change of any rows that leaves them where they are in their life.
pub touch-Evolves :
    (p : InvitationRow → Bool) (f : InvitationRow → InvitationRow)
    → ((x : InvitationRow) → Follows x (f x))
    → (xs : List InvitationRow) → Evolves xs (update_where p f xs)
touch-Evolves p f step [] = tt
touch-Evolves p f step (x ∷ xs) = elim (Bool-cases (p x)) [
  | inl hit ↦ rw hit (step x, touch-Evolves p f step xs)
  | inr miss ↦ rw miss (Follows-refl x, touch-Evolves p f step xs)
]
