-- ===== src/Treasury/Invitations/Issuing/Looped.antt =====
-- What the loop of `issueInvitation` in src/treasury.ts does to a voucher that it hands out.
use dash_faucet_cf.Base.{
  ℕ, zero, suc, ◌+◌, ◌-◌, ◌≤◌, ◌≡◌, refl, subst, ap, inl, inr, String, Bool, true, false, ◌&&◌,
  ◌||◌, Option, none, some, List, [], ◌∷◌, arith, if◌then◌else◌, length, leb, ◌==◌, any, filter,
  All, All-map, All-append, All-of_filter, Bool-cases, same, same_refl, equal_refl, length-append,
  length-take,
}
use dash_faucet_cf.Base.Sort.{sort}
use dash_faucet_cf.Config.{InvitationConfig}
use dash_faucet_cf.Db.{Db, InvitationRow, available, issued}
use dash_faucet_cf.Db.Sql.{update_where}
use dash_faucet_cf.Treasury.Broadcast.{is_empty}
use dash_faucet_cf.Treasury.Invitations.{
  Vault, is_state, in_state, has_voucher_id, as_claimed, as_unreadable, as_issued,
}
use dash_faucet_cf.Db.Selecting.{All-sort, All-take}
use dash_faucet_cf.Treasury.Invitations.Rows.{HasUniqueIds, IsRead, stands}
use dash_faucet_cf.Treasury.Invitations.Lifecycle.{is_state→path}
use dash_faucet_cf.Treasury.Invitations.Issuing.{
  Invitation, open_voucher, Handing, offer_with, offer_voucher, offer_all, is_ready, candidates,
  is_done, hand_out,
}
use dash_faucet_cf.Treasury.Invitations.Evolving.{
  candidates-IsRead, candidates-IsSuccessor, touch-IsRead, offer_voucher-Touches,
}

-- The row of the voucher is issued to the device, since `now`.
abbrev pub is_marked : String → ℕ → String → InvitationRow → Bool
is_marked device now id x =
    has_voucher_id id x
    && in_state issued x
    && (elim (x.device_hash) [ none ↦ false | some d ↦ same d device ])
    && (elim (x.issued_at) [ none ↦ false | some t ↦ t == now ])

-- A change that makes a row no longer ready.
abbrev pub IsSpent : InvitationConfig → (InvitationRow → InvitationRow) → Type 0
IsSpent cfg f = (x : InvitationRow) → is_ready cfg (f x) ≡ false

module _ (cfg : InvitationConfig) (vault : Vault) (device : String) (now : ℕ)
    (P : InvitationRow → Type 0) where
  -- The invitation opens a voucher that was ready and that Platform does not know, and its row is
  -- marked.
  abbrev pub IsHandedOut : List InvitationRow → Invitation → Type 0
  IsHandedOut table i =
      (row : InvitationRow) × P row
      × (is_ready cfg row ≡ true)
      × (vault.identity_exists row.prospective_identity_id ≡ some false)
      × (open_voucher vault row (now + cfg.ttl_ms) ≡ some i)
      × (any (is_marked device now row.id) table ≡ true)

  pub mark-kept :
      (f : InvitationRow → InvitationRow) (id i : String) (xs : List InvitationRow)
      → stands id available xs ≡ true
      → any (is_marked device now i) xs ≡ true
      → any (is_marked device now i) (update_where (has_voucher_id id) f xs) ≡ true
  mark-kept f id i [] h m = m
  mark-kept f id i (x ∷ xs) h m = elim (Bool-cases (has_voucher_id id x)) [
    | inl hit ↦
        let at : x.state ≡ available = is_state→path available x.state (ground arith) in
        let unissued : in_state issued x ≡ false = ap (is_state issued) at in
        rw hit (ground (arith, mark-kept f id i xs))
    | inr miss ↦ rw miss (ground (arith, mark-kept f id i xs))
  ]

  pub mark-new :
      (id : String) (xs : List InvitationRow)
      → any (has_voucher_id id) xs ≡ true
      → any (is_marked device now id) (update_where (has_voucher_id id) (as_issued device now) xs)
        ≡ true
  mark-new id [] h = h
  mark-new id (x ∷ xs) h = ground (arith, same_refl device, equal_refl now, mark-new id xs)

  pub tail-of :
      (b : Bool) (x : InvitationRow) (ys : List InvitationRow)
      → All P (if b then x ∷ ys else ys)
      → All P ys
  tail-of true x ys h = h.1
  tail-of false x ys h = h

  pub cons-of :
      (b : Bool) (x : InvitationRow) (ys zs : List InvitationRow)
      → All P (if b then x ∷ ys else ys)
      → All P zs
      → All P (if b then x ∷ zs else zs)
  cons-of true x ys zs h k = (h.0, k)
  cons-of false x ys zs h k = k

  pub ready-kept :
      (f : InvitationRow → InvitationRow) (p : InvitationRow → Bool)
      → IsSpent cfg f
      → (xs : List InvitationRow) → All P (filter (is_ready cfg) xs)
      → All P (filter (is_ready cfg) (update_where p f xs))
  ready-kept f p spent [] h = tt
  ready-kept f p spent (x ∷ xs) h = elim (Bool-cases (p x)) [
    | inl hit ↦ rw (hit, spent x) (ready-kept f p spent xs (tail-of (is_ready cfg x) x _ h))
    | inr miss ↦ rw miss (
        cons-of (is_ready cfg x) x _ _ h (ready-kept f p spent xs (tail-of (is_ready cfg x) x _ h)))
  ]

  -- The loop so far: the vouchers that it has handed out, and the rows that are still ready.
  pub record IsSound (s : Db × Handing) : Type 0 where
    pub out : All (IsHandedOut s.0.inventory) s.1.invitations
    pub ready : All P (filter (is_ready cfg) s.0.inventory)

  -- A change of rows that stand available leaves what was handed out marked.
  pub out-kept :
      (f : InvitationRow → InvitationRow) (id : String) (xs : List InvitationRow)
      (is : List Invitation)
      → stands id available xs ≡ true
      → All (IsHandedOut xs) is
      → All (IsHandedOut (update_where (has_voucher_id id) f xs)) is
  out-kept f id xs is standing =
      All-map
        (λ i (row, p, was_ready, unknown, opens, mark).
          (row, p, was_ready, unknown, opens, mark-kept f id row.id xs standing mark))
        is

  pub offer_with-IsSound :
      (row : InvitationRow) (claim : Option Bool) (opened : Option Invitation) (s : Db × Handing)
      → vault.identity_exists row.prospective_identity_id ≡ claim
      → open_voucher vault row (now + cfg.ttl_ms) ≡ opened
      → P row
      → is_ready cfg row ≡ true
      → stands row.id available s.0.inventory ≡ true
      → any (has_voucher_id row.id) s.0.inventory ≡ true
      → IsSound s
      → IsSound (offer_with device now row claim opened s)
  unfolding offer_with
  offer_with-IsSound row none opened (db, h) asked opens p was standing present g = record {
    out = g.out;
    ready = g.ready;
  }
  offer_with-IsSound row (some true) opened (db, h) asked opens p was standing present g = record {
    out = out-kept (as_claimed now) row.id db.inventory h.invitations standing g.out;
    ready = ready-kept (as_claimed now) _ (λ x. refl) db.inventory g.ready;
  }
  offer_with-IsSound row (some false) none (db, h) asked opens p was standing present g = record {
    out = out-kept (as_unreadable now) row.id db.inventory h.invitations standing g.out;
    ready = ready-kept (as_unreadable now) _ (λ x. refl) db.inventory g.ready;
  }
  offer_with-IsSound row (some false) (some i) (db, h) asked opens p was standing present g =
      record {
        out =
            All-append (IsHandedOut _) h.invitations (i ∷ [])
              (out-kept (as_issued device now) row.id db.inventory h.invitations standing g.out)
              ((row, p, was, asked, opens, mark-new row.id db.inventory present), tt);
        ready = ready-kept (as_issued device now) _ (λ x. refl) db.inventory g.ready;
      }

  -- What is known of a candidate.
  abbrev pub IsCandidate : InvitationRow → Type 0
  IsCandidate row = P row × (is_ready cfg row ≡ true)

  pub one :
      (row : InvitationRow) (s : Db × Handing)
      → P row
      → is_ready cfg row ≡ true
      → stands row.id available s.0.inventory ≡ true
      → any (has_voucher_id row.id) s.0.inventory ≡ true
      → IsSound s
      → IsSound (offer_voucher cfg vault device now row s)
  unfolding offer_voucher
  one row s p was standing present g =
      offer_with-IsSound row _ _ s refl refl p was standing present g

  pub offer_all-IsSound :
      (rows : List InvitationRow) (s : Db × Handing)
      → All IsCandidate rows
      → All (λ r. r.state ≡ available) rows
      → IsRead s.0.inventory rows
      → IsSound s
      → IsSound (offer_all cfg vault device now rows s)
  unfolding offer_all
  offer_all-IsSound [] s c a h g = g
  offer_all-IsSound (row ∷ rows) s ((p, was), c) (at, a) h g =
      let (evolves, read) =
        touch-IsRead row s.0.inventory _ rows (offer_voucher-Touches cfg vault device now row s at)
          h in
      offer_all-IsSound rows (offer_voucher cfg vault device now row s) c a read (
        one row s p was (subst (λ t. stands row.id t s.0.inventory ≡ true) at (h.standing).0)
          (h.present).0 g)

  pub both :
      (rows : List InvitationRow)
      → All P rows
      → All (λ r. is_ready cfg r ≡ true) rows
      → All IsCandidate rows
  both [] h k = tt
  both (r ∷ rows) (p, h) (q, k) = ((p, q), both rows h k)

  pub candidates-AreCandidates :
      (limit : ℕ) (db : Db)
      → All P (filter (is_ready cfg) db.inventory)
      → All IsCandidate (candidates cfg limit db)
  candidates-AreCandidates limit db h = All-take IsCandidate limit _ (
      All-sort IsCandidate _ _ (
        both (filter (is_ready cfg) db.inventory) h
          (All-of_filter (λ r. is_ready cfg r ≡ true) (is_ready cfg) (λ r e. e) db.inventory)))

  pub hand_out-IsSound :
      (count fuel : ℕ) (db : Db) (h : Handing)
      → HasUniqueIds db.inventory
      → IsSound (db, h)
      → IsSound (hand_out cfg vault device now count fuel (db, h))
  unfolding hand_out
  hand_out-IsSound count zero db h u g = g
  hand_out-IsSound count (suc fuel) db h u g =
      let limit = count - length h.invitations in
      let (at, read) = candidates-IsRead cfg vault device now limit db u in
      let offered =
        offer_all-IsSound (candidates cfg limit db) (db, h)
          (candidates-AreCandidates limit db g.ready) at read g in
      let next_rows = candidates-IsSuccessor cfg vault device now limit db h u in
      elim (Bool-cases (is_done count h || is_empty (candidates cfg limit db))) [
        | inl ended ↦ rw (hand_out, ended) g
        | inr more ↦ rw (hand_out, more) (hand_out-IsSound count fuel _ _ next_rows.unique offered)
      ]

  pub offer_with-length :
      (row : InvitationRow) (claim : Option Bool) (opened : Option Invitation) (s : Db × Handing)
      → length (offer_with device now row claim opened s).1.invitations ≤ length s.1.invitations + 1
  unfolding offer_with
  offer_with-length row none opened (db, h) = omega arith
  offer_with-length row (some true) opened (db, h) = omega arith
  offer_with-length row (some false) none (db, h) = omega arith
  offer_with-length row (some false) (some i) (db, h) =
      omega (arith, length-append h.invitations (i ∷ []))

  pub offer_all-length :
      (rows : List InvitationRow) (s : Db × Handing)
      → length (offer_all cfg vault device now rows s).1.invitations
        ≤ length s.1.invitations + length rows
  unfolding offer_all offer_voucher
  offer_all-length [] s = omega arith
  offer_all-length (row ∷ rows) s = omega (
    arith,
    offer_all-length rows (offer_voucher cfg vault device now row s),
    offer_with-length row (vault.identity_exists row.prospective_identity_id)
        (open_voucher vault row (now + cfg.ttl_ms)) s,
  )

  pub hand_out-length :
      (count fuel : ℕ) (db : Db) (h : Handing)
      → length h.invitations ≤ count
      → length (hand_out cfg vault device now count fuel (db, h)).1.invitations ≤ count
  unfolding hand_out
  hand_out-length count zero db h few = few
  hand_out-length count (suc fuel) db h few =
      let limit = count - length h.invitations in
      let rows = candidates cfg limit db in
      elim (Bool-cases (is_done count h || is_empty rows)) [
        | inl ended ↦ rw (hand_out, ended) few
        | inr more ↦
            rw (hand_out, more)
              (hand_out-length count fuel _ _ (
                omega (
                  arith,
                  few,
                  offer_all-length rows (db, h),
                  length-take limit (
                      sort (λ a b. leb a.created_at b.created_at)
                        (filter (is_ready cfg) db.inventory)),
                )))
      ]
