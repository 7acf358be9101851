-- ===== src/Chain/Relay/Verdicts.antt =====
-- What `relay` of src/chain/index.ts makes of the answers.
use dash_faucet_cf.Base.{
  String, ◌≡◌, refl, sym, inl, inr, ◌∙◌, if◌then◌else◌, Bool, true, false, ◌&&◌, ◌||◌, not, List,
  [], ◌∷◌, ◌++◌, any, arith, Bool-cases,
}
use dash_faucet_cf.Treasury.Broadcast.{is_empty}
use dash_faucet_cf.Base.Text.{codes}
use dash_faucet_cf.Chain.{Provider, Answer, returned, raised}
use dash_faucet_cf.Chain.Errors.{
  BroadcastFailure, rejected, ambiguous, is_already_known, is_rejection, is_transport_failure,
  classify_broadcast_error,
}
use dash_faucet_cf.Chain.Relay.{
  Verdict, taken, refused, unclear, verdict, same_txid, wrong_txid, Relayed, relay_with, relay,
}

abbrev pub has_taken : Verdict → Bool
has_taken taken = true
has_taken (refused text) = false
has_taken (unclear text) = false

abbrev pub is_refused : Verdict → Bool
is_refused taken = false
is_refused (refused text) = true
is_refused (unclear text) = false

abbrev pub is_unclear : Verdict → Bool
is_unclear taken = false
is_unclear (refused text) = false
is_unclear (unclear text) = true

-- An error that names a reason of the transaction's own, and no failure of the transport.
abbrev pub is_outright : String → Bool
is_outright message = is_rejection (codes message) && not (is_transport_failure (codes message))

-- The answer to `broadcast` that says that the node has the transaction: it is returned, by an
-- evonode with the same txid, or the error says that it is known.
abbrev pub says_taken : String → Bool → Answer String → Bool
says_taken txid is_evonode (returned value) = not is_evonode || same_txid value txid
says_taken txid is_evonode (raised message) = is_already_known message

-- The answer that says that the transaction is no good.
abbrev pub says_refused : Answer String → Bool
says_refused (returned value) = false
says_refused (raised message) = is_outright message && not (is_already_known message)

-- A configured relay took the transaction; an evonode did; the relay refused it outright; its answer
-- says neither.
abbrev pub took : String → Provider → Bool
took txid p = says_taken txid p.is_evonode (p.broadcast txid) && not p.is_evonode

abbrev pub took_unvouched : String → Provider → Bool
took_unvouched txid p = says_taken txid p.is_evonode (p.broadcast txid) && p.is_evonode

abbrev pub refuses : String → Provider → Bool
refuses txid p = says_refused (p.broadcast txid)

abbrev pub leaves_open : String → Provider → Bool
leaves_open txid p =
    not (says_taken txid p.is_evonode (p.broadcast txid)) && not (says_refused (p.broadcast txid))

-- `verdict` reads the answers so.
abbrev relay_verdict : String → Provider → Answer String → Verdict
relay_verdict txid p answer = elim answer [
  | returned value ↦
      if p.is_evonode && not (same_txid value txid) then unclear (wrong_txid value) else taken
  | raised message ↦
      if is_already_known message then taken else elim (classify_broadcast_error message) [
        | rejected ↦ refused message
        | ambiguous ↦ unclear message
      ]
]

relay_verdict-taken :
    (txid : String) (p : Provider) (a : Answer String)
    → has_taken (relay_verdict txid p a) ≡ says_taken txid p.is_evonode a
relay_verdict-taken txid p (returned value) = ground arith
relay_verdict-taken txid p (raised message) = elim (Bool-cases (is_already_known message)) [
  | inl known ↦ rw known refl
  | inr new_ ↦ rw new_ (go (classify_broadcast_error message))
]
  where
    go :
        (c : BroadcastFailure)
        → has_taken (elim c [ rejected ↦ refused message | ambiguous ↦ unclear message ]) ≡ false
    go rejected = refl
    go ambiguous = refl

classify-outright :
    (message : String)
    → is_refused (elim (classify_broadcast_error message) [
      | rejected ↦ refused message
      | ambiguous ↦ unclear message
    ])
      ≡ is_outright message
unfolding classify_broadcast_error
classify-outright message = elim (Bool-cases (is_transport_failure (codes message))) [
  | inl broken ↦ rw broken (ground arith)
  | inr fine ↦ rw fine (go (is_rejection (codes message)))
]
  where
    go :
        (b : Bool)
        → is_refused (elim (if b then rejected else ambiguous) [
          | rejected ↦ refused message
          | ambiguous ↦ unclear message
        ])
          ≡ (b && true)
    go true = refl
    go false = refl

relay_verdict-refused :
    (txid : String) (p : Provider) (a : Answer String)
    → is_refused (relay_verdict txid p a) ≡ says_refused a
relay_verdict-refused txid p (returned value) =
    elim (Bool-cases (p.is_evonode && not (same_txid value txid))) [
      | inl wrong ↦ rw wrong refl
      | inr right ↦ rw right refl
    ]
relay_verdict-refused txid p (raised message) = elim (Bool-cases (is_already_known message)) [
  | inl known ↦ rw known (ground arith)
  | inr new_ ↦ rw new_ (classify-outright message ∙ ground arith)
]

-- What `verdict` makes of a relay is what its answer says.
pub verdict-taken :
    (txid : String) (p : Provider)
    → has_taken (verdict txid p) ≡ says_taken txid p.is_evonode (p.broadcast txid)
unfolding verdict
verdict-taken txid p = relay_verdict-taken txid p (p.broadcast txid)

pub verdict-refused :
    (txid : String) (p : Provider) → is_refused (verdict txid p) ≡ says_refused (p.broadcast txid)
unfolding verdict
verdict-refused txid p = relay_verdict-refused txid p (p.broadcast txid)

one_of_three : (v : Verdict) → is_unclear v ≡ (not (has_taken v) && not (is_refused v))
one_of_three taken = refl
one_of_three (refused text) = refl
one_of_three (unclear text) = refl

verdict-unclear : (txid : String) (p : Provider) → is_unclear (verdict txid p) ≡ leaves_open txid p
verdict-unclear txid p =
    one_of_three (verdict txid p) ∙ rw (verdict-taken txid p, verdict-refused txid p) refl

pub empty-append {ℓ} : {A : Type ℓ} (xs : List A) (y : A) → is_empty (xs ++ y ∷ []) ≡ false
empty-append [] y = refl
empty-append (x ∷ xs) y = refl

-- The emptiness of the three lists after one round, by the verdict.
module _ (p : Provider) (r : Relayed) where
  pub with-accepted :
      (v : Verdict)
      → is_empty (relay_with p v r).accepted
        ≡ (is_empty r.accepted && not (has_taken v && not p.is_evonode))
  unfolding relay_with
  with-accepted taken = elim (Bool-cases p.is_evonode) [
    | inl e ↦ rw e (ground arith)
    | inr e ↦ rw (e, empty-append r.accepted p.name) (ground arith)
  ]
  with-accepted (refused text) = ground arith
  with-accepted (unclear text) = ground arith

  pub with-unvouched :
      (v : Verdict)
      → is_empty (relay_with p v r).unvouched
        ≡ (is_empty r.unvouched && not (has_taken v && p.is_evonode))
  unfolding relay_with
  with-unvouched taken = elim (Bool-cases p.is_evonode) [
    | inl e ↦ rw (e, empty-append r.unvouched p.name) (ground arith)
    | inr e ↦ rw e (ground arith)
  ]
  with-unvouched (refused text) = ground arith
  with-unvouched (unclear text) = ground arith

  pub with-ambiguous :
      (v : Verdict)
      → is_empty (relay_with p v r).ambiguous ≡ (is_empty r.ambiguous && not (is_unclear v))
  unfolding relay_with
  with-ambiguous taken = elim (Bool-cases p.is_evonode) [
    | inl e ↦ rw e (ground arith)
    | inr e ↦ rw e (ground arith)
  ]
  with-ambiguous (refused text) = ground arith
  with-ambiguous (unclear text) = rw (empty-append r.ambiguous _) (ground arith)

module _ (txid : String) where
  pub relay-accepted :
      (ps : List Provider) (r : Relayed)
      → is_empty (relay txid ps r).accepted ≡ (is_empty r.accepted && not (any (took txid) ps))
  unfolding relay
  relay-accepted [] r = ground arith
  relay-accepted (p ∷ ps) r = ground (
    arith,
    relay-accepted ps (relay_with p (verdict txid p) r),
    with-accepted p r (verdict txid p),
    verdict-taken txid p,
  )

  pub relay-unvouched :
      (ps : List Provider) (r : Relayed)
      → is_empty (relay txid ps r).unvouched
        ≡ (is_empty r.unvouched && not (any (took_unvouched txid) ps))
  unfolding relay
  relay-unvouched [] r = ground arith
  relay-unvouched (p ∷ ps) r = ground (
    arith,
    relay-unvouched ps (relay_with p (verdict txid p) r),
    with-unvouched p r (verdict txid p),
    verdict-taken txid p,
  )

  pub relay-ambiguous :
      (ps : List Provider) (r : Relayed)
      → is_empty (relay txid ps r).ambiguous
        ≡ (is_empty r.ambiguous && not (any (leaves_open txid) ps))
  unfolding relay
  relay-ambiguous [] r = ground arith
  relay-ambiguous (p ∷ ps) r = ground (
    arith,
    relay-ambiguous ps (relay_with p (verdict txid p) r),
    with-ambiguous p r (verdict txid p),
    verdict-unclear txid p,
  )

pub any-append {ℓ} :
    {A : Type ℓ} (p : A → Bool) (xs ys : List A) → any p (xs ++ ys) ≡ (any p xs || any p ys)
any-append p [] ys = refl
any-append p (x ∷ xs) ys = ground (arith, any-append p xs ys)

verdicts :
    (v : Verdict) (e : Bool)
    → is_refused v ≡ (not (has_taken v && not e) && (not (has_taken v && e) && not (is_unclear v)))
verdicts taken true = refl
verdicts taken false = refl
verdicts (refused text) e = refl
verdicts (unclear text) e = refl

-- The three answers exclude each other, and there is no fourth.
pub refuses-rest :
    (txid : String) (p : Provider)
    → refuses txid p
      ≡ (not (took txid p) && (not (took_unvouched txid p) && not (leaves_open txid p)))
refuses-rest txid p =
    sym (verdict-refused txid p)
    ∙ verdicts (verdict txid p) p.is_evonode
    ∙ rw (verdict-taken txid p, verdict-unclear txid p) refl
