-- ===== src/Chain/Reading/Current.antt =====
-- The coins that `getUtxos` of src/chain/index.ts returns are those of a provider near the tip.
use dash_faucet_cf.Base.{
  ℕ, ◌+◌, ◌≤◌, ◌≡◌, refl, ◌∙◌, subst, ◌⊎◌, inl, inr, Bool, true, false, ◌&&◌, ◌||◌, not, Option,
  none, some, List, [], ◌∷◌, map, filter, find, all, arith, Bool-cases, Option-cases,
}
use dash_faucet_cf.Tx.{Utxo}
use dash_faucet_cf.Treasury.{Snapshot}
use dash_faucet_cf.Chain.{Provider, Client}
use dash_faucet_cf.Chain.Tip.{Status, max_lag_blocks, tip_height, survey_with}
use dash_faucet_cf.Chain.Reading.{is_eligible, attempt, read_utxos, get_utxos}

-- The provider lists these coins, at the first attempt or the second.
abbrev pub Lists : List Utxo → Provider → Type 0
Lists utxos p = (p.get_utxos ≡ some utxos) ⊎ (p.get_utxos_again ≡ some utxos)

-- One of the statuses is so.
abbrev pub AnyOf : (Status → Type 0) → List Status → Type 0
AnyOf P [] = ⊥
AnyOf P (s ∷ ss) = P s ⊎ AnyOf P ss

-- A provider that lists coins and is no more than the allowance behind the tip lists these coins.
abbrev pub ListsAt : ℕ → List Utxo → Status → Type 0
ListsAt tip utxos s =
    (s.provider.can_read_utxos ≡ true)
    × (h : ℕ) × (s.height ≡ some h)
    × (tip ≤ h + max_lag_blocks)
    × Lists utxos s.provider

-- The provider's first attempt failed, or it was not to be asked.
abbrev pub gave_nothing : ℕ → Status → Bool
gave_nothing tip s =
    not (is_eligible tip s) || (elim (s.provider.get_utxos) [ none ↦ true | some us ↦ false ])

-- The provider is to be asked, and asked again: it did not give up for lack of time.
abbrev pub earns_retry : ℕ → Status → Bool
earns_retry tip s = is_eligible tip s && not s.provider.is_aborted

-- The provider to be asked again, where there is one, listed no coins then either.
abbrev pub IsRetryInVain : Option Status → Type 0
IsRetryInVain none = Unit
IsRetryInVain (some s) = s.provider.get_utxos_again ≡ none

-- What the answer rests on: coins are those of a provider near the tip; without coins there is no
-- tip, or no provider near the tip listed any, the first that earns a second attempt not even then.
abbrev pub IsCurrent : List Status → Option Snapshot → Type 0
IsCurrent statuses (some view) =
    (tip_height statuses ≡ some view.tip_height)
    × AnyOf (ListsAt view.tip_height view.utxos) statuses
IsCurrent statuses none =
    (tip_height statuses ≡ none)
    ⊎ ((tip : ℕ) × (tip_height statuses ≡ some tip)
        × (all (gave_nothing tip) statuses ≡ true)
        × IsRetryInVain (find (earns_retry tip) statuses))

abbrev eligible : ℕ → List Status → List Provider
eligible tip statuses = map (λ s. s.provider) (filter (is_eligible tip) statuses)

eligible-ListsAt :
    (tip : ℕ) (utxos : List Utxo) (s : Status)
    → is_eligible tip s ≡ true
    → Lists utxos s.provider
    → ListsAt tip utxos s
eligible-ListsAt tip utxos s e lists = elim (Option-cases s.height) [
  | inl unknown ↦ absurd (ground arith)
  | inr (h, known) ↦ (ground arith, h, known, ground arith, lists)
]

attempt-Lists :
    (retried : Bool) (first : Option (List Utxo)) (p : Provider) (utxos : List Utxo)
    → p.get_utxos ≡ first
    → (attempt retried first p).0 ≡ some utxos
    → Lists utxos p
unfolding attempt
attempt-Lists retried (some us) p utxos asked e = inl (asked ∙ e)
attempt-Lists retried none p utxos asked e = elim (Bool-cases (retried || p.is_aborted)) [
  | inl stop ↦ absurd (cc (rw stop at e))
  | inr go_on ↦ inr (rw go_on at e)
]

-- The loop reads from one of the eligible providers.
read_utxos-lists :
    (tip : ℕ) (utxos : List Utxo) (statuses : List Status) (retried : Bool)
    → read_utxos retried (eligible tip statuses) ≡ some utxos
    → AnyOf (ListsAt tip utxos) statuses
unfolding read_utxos
read_utxos-lists tip utxos [] retried e = absurd (cc)
read_utxos-lists tip utxos (s ∷ ss) retried e = elim (Bool-cases (is_eligible tip s)) [
  | inr no_ ↦ inr (read_utxos-lists tip utxos ss retried (rw no_ at e))
  | inl yes_ ↦
      go (attempt retried s.provider.get_utxos s.provider)
        (λ found. inl (
          eligible-ListsAt tip utxos s yes_
            (attempt-Lists retried s.provider.get_utxos s.provider utxos refl found)))
        (λ retried' rest. inr (read_utxos-lists tip utxos ss retried' rest)) (rw yes_ at e)
]
  where
    go :
        (out : Option (List Utxo) × Bool)
        → (out.0 ≡ some utxos → AnyOf (ListsAt tip utxos) (s ∷ ss))
        → ((retried' : Bool)
            → read_utxos retried' (eligible tip ss) ≡ some utxos
            → AnyOf (ListsAt tip utxos) (s ∷ ss))
        → (elim (out.0) [ some us ↦ some us | none ↦ read_utxos out.1 (eligible tip ss) ])
          ≡ some utxos
        → AnyOf (ListsAt tip utxos) (s ∷ ss)
    go (some us, flag) hit miss h = hit h
    go (none, flag) hit miss h = miss flag h

attempt-none :
    (retried : Bool) (first : Option (List Utxo)) (p : Provider)
    → (attempt retried first p).0 ≡ none
    → first ≡ none
unfolding attempt
attempt-none retried (some us) p e = absurd (cc)
attempt-none retried none p e = refl

read_utxos-none :
    (tip : ℕ) (statuses : List Status) (retried : Bool)
    → read_utxos retried (eligible tip statuses) ≡ none
    → all (gave_nothing tip) statuses ≡ true
unfolding read_utxos attempt
read_utxos-none tip [] retried e = refl
read_utxos-none tip (s ∷ ss) retried e = elim (Bool-cases (is_eligible tip s)) [
  | inr no_ ↦ rw no_ (read_utxos-none tip ss retried (rw no_ at e))
  | inl yes_ ↦
      go (attempt retried s.provider.get_utxos s.provider)
        (λ silent.
          let first = attempt-none retried s.provider.get_utxos s.provider silent in
          rw (yes_, first) refl)
        (λ retried' rest. read_utxos-none tip ss retried' rest) (rw yes_ at e)
]
  where
    go :
        (out : Option (List Utxo) × Bool)
        → (out.0 ≡ none → gave_nothing tip s ≡ true)
        → ((retried' : Bool)
            → read_utxos retried' (eligible tip ss) ≡ none
            → all (gave_nothing tip) ss ≡ true)
        → (elim (out.0) [ some us ↦ some us | none ↦ read_utxos out.1 (eligible tip ss) ]) ≡ none
        → all (gave_nothing tip) (s ∷ ss) ≡ true
    go (some us, flag) silent miss h = absurd (cc)
    go (none, flag) silent miss h = rw (silent refl) (miss flag h)

asked_twice :
    (p : Provider) (rest : Bool → Option (List Utxo)) (first : Option (List Utxo))
    → first ≡ none
    → p.is_aborted ≡ false
    → (elim ((attempt false first p).0) [
      | some us ↦ some us
      | none ↦ rest (attempt false first p).1
    ])
      ≡ none
    → p.get_utxos_again ≡ none
unfolding attempt
asked_twice p rest first silent on e = elim (Option-cases p.get_utxos_again) [
  | inl again ↦ again
  | inr (us, again) ↦ absurd (cc (rw (silent, on, again) at e))
]

asked_once :
    (p : Provider) (rest : Bool → Option (List Utxo)) (first : Option (List Utxo))
    → first ≡ none
    → p.is_aborted ≡ true
    → (elim ((attempt false first p).0) [
      | some us ↦ some us
      | none ↦ rest (attempt false first p).1
    ])
      ≡ none
    → rest false ≡ none
unfolding attempt
asked_once p rest (some us) silent off e = absurd (cc)
asked_once p rest none silent off e =
    let stopped : attempt false none p ≡ (none, false) = rw off refl in
    subst
      (λ (out : Option (List Utxo) × Bool).
        (elim (out.0) [ some us ↦ some us | none ↦ rest out.1 ]) ≡ none)
      stopped e

-- Without coins the second attempt, which the first provider to fail quickly earns, failed too.
read_utxos-retry :
    (tip : ℕ) (statuses : List Status)
    → read_utxos false (eligible tip statuses) ≡ none
    → all (gave_nothing tip) statuses ≡ true
    → IsRetryInVain (find (earns_retry tip) statuses)
unfolding read_utxos
read_utxos-retry tip [] e silent = tt
read_utxos-retry tip (s ∷ ss) e silent = elim (Bool-cases (is_eligible tip s)) [
  | inr no_ ↦ rw no_ (read_utxos-retry tip ss (rw no_ at e) (ground arith))
  | inl yes_ ↦ elim (Option-cases s.provider.get_utxos) [
    | inr (us, found) ↦ absurd (cc (rw (yes_, found) at silent))
    | inl first ↦ elim (Bool-cases s.provider.is_aborted) [
      | inl off ↦
          rw (yes_, off)
            (read_utxos-retry tip ss
              (asked_once s.provider (λ flag. read_utxos flag (eligible tip ss))
                s.provider.get_utxos first off (rw yes_ at e))
              (rw (yes_, first) at silent))
      | inr on ↦
          rw (yes_, on)
            (asked_twice s.provider (λ flag. read_utxos flag (eligible tip ss)) s.provider.get_utxos
              first on (rw yes_ at e))
    ]
  ]
]

-- Coins that `getUtxos` returns, with the tip of the survey, are listed, at the first attempt or
-- the second, by a surveyed provider that reads coins and is at most ten blocks behind that tip;
-- where it throws, there is no tip, or no provider that is to be asked listed coins at its first
-- attempt, and the first of them that failed otherwise than for lack of time, if there is one,
-- listed none at its second.
pub get_utxos-IsCurrent : (c : Client) → IsCurrent (survey_with c) (get_utxos c)
unfolding get_utxos
get_utxos-IsCurrent c = go (tip_height (survey_with c)) refl
  where
    loop : ℕ → Option (List Utxo)
    loop tip = read_utxos false (eligible tip (survey_with c))

    found :
        (tip : ℕ)
        → tip_height (survey_with c) ≡ some tip
        → (o : Option (List Utxo)) → loop tip ≡ o
        → IsCurrent
            (survey_with c)
            (elim o [ none ↦ none | some utxos ↦ some record { utxos = utxos; tip_height = tip } ])
    found tip at none e =
        let silent = read_utxos-none tip (survey_with c) false e in
        inr (tip, at, silent, read_utxos-retry tip (survey_with c) e silent)
    found tip at (some utxos) e = (at, read_utxos-lists tip utxos (survey_with c) false e)

    go :
        (o : Option ℕ)
        → tip_height (survey_with c) ≡ o
        → IsCurrent (survey_with c) (elim o [
          | none ↦ none
          | some tip ↦ elim (loop tip) [
            | none ↦ none
            | some utxos ↦ some record { utxos = utxos; tip_height = tip }
          ]
        ])
    go none e = inl e
    go (some tip) e = found tip e (loop tip) refl
