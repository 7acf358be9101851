-- ===== src/Treasury/Invitations/Issuing/Rounds.antt =====
-- The `while` loop of `issueInvitation` in src/treasury.ts ends by its own test.
use dash_faucet_cf.Base.{
  ℕ, zero, suc, ◌+◌, ◌-◌, ◌≤◌, ◌<◌, ◌≡◌, refl, subst, ◌⊎◌, inl, inr, String, Bool, true, false,
  ◌||◌, Option, none, some, List, [], ◌∷◌, arith, length, any, filter, take, All, Bool-cases,
}
use dash_faucet_cf.Base.Sort.{sort}
use dash_faucet_cf.Config.{InvitationConfig}
use dash_faucet_cf.Db.{Db, InvitationRow, available}
use dash_faucet_cf.Treasury.Broadcast.{is_empty}
use dash_faucet_cf.Treasury.Invitations.{
  Vault, has_voucher_id, as_claimed, as_unreadable, as_issued,
}
use dash_faucet_cf.Treasury.Invitations.Rows.{
  HasUniqueIds, IsRead, stands, available_rows, update-available-le, update-available-lt,
}
use dash_faucet_cf.Treasury.Invitations.Issuing.{
  Invitation, open_voucher, Handing, offer_with, offer_voucher, offer_all, is_ready, candidates,
  is_done, hand_out, rounds, nothing_yet,
}
use dash_faucet_cf.Treasury.Invitations.Evolving.{candidates-IsRead, candidates-IsSuccessor}

abbrev left_after : Db × Handing → ℕ
left_after s = available_rows s.0.inventory

take_nil : (n : ℕ) → is_empty (take {A = InvitationRow} n []) ≡ true
take_nil zero = refl
take_nil (suc n) = refl

-- A candidate is taken out of the available rows, or the loop stops.
abbrev IsTaken : ℕ → Db × Handing → Type 0
IsTaken before s = (s.1.explorer_down ≡ true) ⊎ (left_after s < before)

module _ (device : String) (now : ℕ) (row : InvitationRow) where
  offer_with-le :
      (claim : Option Bool) (opened : Option Invitation) (s : Db × Handing)
      → left_after (offer_with device now row claim opened s) ≤ left_after s
  unfolding offer_with
  offer_with-le none opened (db, h) = omega arith
  offer_with-le (some true) opened (db, h) =
      update-available-le (as_claimed now) (λ x. refl) _ db.inventory
  offer_with-le (some false) none (db, h) =
      update-available-le (as_unreadable now) (λ x. refl) _ db.inventory
  offer_with-le (some false) (some i) (db, h) =
      update-available-le (as_issued device now) (λ x. refl) _ db.inventory

  offer_with-down :
      (claim : Option Bool) (opened : Option Invitation) (s : Db × Handing)
      → s.1.explorer_down ≡ true
      → (offer_with device now row claim opened s).1.explorer_down ≡ true
  unfolding offer_with
  offer_with-down none opened (db, h) down = refl
  offer_with-down (some true) opened (db, h) down = down
  offer_with-down (some false) none (db, h) down = down
  offer_with-down (some false) (some i) (db, h) down = down

  offer_with-IsTaken :
      (claim : Option Bool) (opened : Option Invitation) (s : Db × Handing)
      → stands row.id available s.0.inventory ≡ true
      → any (has_voucher_id row.id) s.0.inventory ≡ true
      → IsTaken (left_after s) (offer_with device now row claim opened s)
  unfolding offer_with
  offer_with-IsTaken none opened (db, h) standing present = inl refl
  offer_with-IsTaken (some true) opened (db, h) standing present =
      inr (update-available-lt (as_claimed now) (λ x. refl) row.id db.inventory present standing)
  offer_with-IsTaken (some false) none (db, h) standing present =
      inr (update-available-lt (as_unreadable now) (λ x. refl) row.id db.inventory present standing)
  offer_with-IsTaken (some false) (some i) (db, h) standing present =
      inr (
        update-available-lt (as_issued device now) (λ x. refl) row.id db.inventory present standing)

module _ (cfg : InvitationConfig) (vault : Vault) (device : String) (now : ℕ) where
  abbrev offer : InvitationRow → Db × Handing → Db × Handing
  offer row s = offer_voucher cfg vault device now row s

  offer_all-IsTaken :
      (before : ℕ) (rows : List InvitationRow) (s : Db × Handing)
      → IsTaken before s
      → IsTaken before (offer_all cfg vault device now rows s)
  unfolding offer_all offer_voucher
  offer_all-IsTaken before [] s h = h
  offer_all-IsTaken before (row ∷ rows) s (inl down) =
      offer_all-IsTaken before rows (offer row s) (inl (offer_with-down device now row _ _ s down))
  offer_all-IsTaken before (row ∷ rows) s (inr less) = offer_all-IsTaken before rows (offer row s) (
      inr (
        omega (
          arith,
          less,
          offer_with-le device now row (vault.identity_exists row.prospective_identity_id)
              (open_voucher vault row (now + cfg.ttl_ms)) s,
        )))

  -- A round with candidates.
  round-IsTaken :
      (rows : List InvitationRow) (s : Db × Handing)
      → is_empty rows ≡ false
      → All (λ r. r.state ≡ available) rows
      → IsRead s.0.inventory rows
      → IsTaken (left_after s) (offer_all cfg vault device now rows s)
  unfolding offer_all offer_voucher
  round-IsTaken [] s some_row a h = absurd (cc)
  round-IsTaken (row ∷ rows) s some_row (ready, a) h =
      offer_all-IsTaken (left_after s) rows (offer row s) (
        offer_with-IsTaken device now row _ _ s
          (subst (λ t. stands row.id t s.0.inventory ≡ true) ready (h.standing).0) (h.present).0)

  -- The test of the loop fails: enough vouchers, no answer from Platform, or no candidate.
  abbrev pub IsEnded : ℕ → Db × Handing → Type 0
  IsEnded count s =
      (is_done count s.1 || is_empty (candidates cfg (count - length s.1.invitations) s.0)) ≡ true

  down-IsEnded :
      (count fuel : ℕ) (s : Db × Handing)
      → s.1.explorer_down ≡ true
      → IsEnded count (hand_out cfg vault device now count fuel s)
  unfolding hand_out
  down-IsEnded count zero s down = ground arith
  down-IsEnded count (suc fuel) s down =
      let stops : (is_done count s.1
            || is_empty (candidates cfg (count - length s.1.invitations) s.0))
          ≡ true =
        ground arith in
      rw (hand_out, stops) stops

  none-ready : (xs : List InvitationRow) → available_rows xs ≤ 0 → filter (is_ready cfg) xs ≡ []
  none-ready [] h = refl
  none-ready (x ∷ xs) h = ground (arith, none-ready xs)

  none-candidates :
      (limit : ℕ) (db : Db)
      → available_rows db.inventory ≤ 0
      → is_empty (candidates cfg limit db) ≡ true
  unfolding sort
  none-candidates limit db h = rw (none-ready db.inventory h) (take_nil limit)

  none-IsEnded : (count : ℕ) (s : Db × Handing) → left_after s ≤ 0 → IsEnded count s
  none-IsEnded count s none_left =
      let nothing = none-candidates (count - length s.1.invitations) s.0 none_left in ground arith

  hand_out-IsEnded :
      (count fuel : ℕ) (db : Db) (h : Handing)
      → HasUniqueIds db.inventory
      → available_rows db.inventory ≤ fuel
      → IsEnded count (hand_out cfg vault device now count fuel (db, h))
  unfolding hand_out
  hand_out-IsEnded count zero db h u enough = none-IsEnded count (db, h) enough
  hand_out-IsEnded count (suc fuel) db h u enough =
      elim (Bool-cases
        (is_done count h || is_empty (candidates cfg (count - length h.invitations) db))) [
          | inl ended ↦ rw (hand_out, ended) ended
          | inr more ↦
              let (ready, read) =
                candidates-IsRead cfg vault device now (count - length h.invitations) db u in
              let next_rows =
                candidates-IsSuccessor cfg vault device now (count - length h.invitations) db h u in
              rw (hand_out, more)
                (elim (round-IsTaken _ (db, h) (ground arith) ready read) [
                  | inl down ↦ down-IsEnded count fuel _ down
                  | inr less ↦
                      hand_out-IsEnded count fuel _ _ next_rows.unique (omega (arith, less))
                ])
        ]

  -- Where the vouchers have unique ids, the loop over the candidates ends by its own test, not by
  -- its fuel: there are enough vouchers, or Platform gave no answer, or there is no candidate.
  pub hand_out-ends :
      (count : ℕ) (db : Db)
      → HasUniqueIds db.inventory
      → IsEnded count (hand_out cfg vault device now count (rounds db) (db, nothing_yet))
  hand_out-ends count db u = hand_out-IsEnded count (rounds db) db nothing_yet u (omega arith)
