-- ===== src/Treasury/Invitations/Reclaiming.antt =====
-- What the first loop of `maintainInvitations` in src/treasury.ts makes of every voucher.
use dash_faucet_cf.Base.{
  ℕ, ◌≡◌, ◌⊎◌, Bool, true, false, Option, none, some, List, [], ◌∷◌, if◌then◌else◌,
}
use dash_faucet_cf.Config.{InvitationConfig}
use dash_faucet_cf.Db.{Db, InvitationRow}
use dash_faucet_cf.Db.Sql.{update_where}
use dash_faucet_cf.Treasury.Invitations.{Vault, has_voucher_id, as_claimed, as_recycled}
use dash_faucet_cf.Treasury.Invitations.Tending.{is_over}

-- A voucher before and after: one that was handed out and whose time is over is claimed exactly if
-- Platform knows its identity, goes back into the inventory exactly if Platform says that it does
-- not, and stays if Platform cannot say; any other stays as it is.
abbrev pub IsReclaimed : InvitationConfig → Vault → ℕ → (before after : InvitationRow) → Type 0
IsReclaimed cfg vault now r r' =
    ((is_over cfg now r ≡ true)
      × (vault.identity_exists r.prospective_identity_id ≡ some true)
      × (r' ≡ as_claimed now r))
    ⊎ (((is_over cfg now r ≡ true)
          × (vault.identity_exists r.prospective_identity_id ≡ some false)
          × (r' ≡ as_recycled now r))
        ⊎ (((is_over cfg now r ≡ false) ⊎ (vault.identity_exists r.prospective_identity_id ≡ none))
            × (r' ≡ r)))

abbrev pub AreReclaimed :
    InvitationConfig → Vault → ℕ → (before after : List InvitationRow) → Type 0
AreReclaimed cfg vault now [] [] = Unit
AreReclaimed cfg vault now (r ∷ rs) (r' ∷ rs') =
    IsReclaimed cfg vault now r r' × AreReclaimed cfg vault now rs rs'
AreReclaimed cfg vault now [] (r' ∷ rs') = ⊥
AreReclaimed cfg vault now (r ∷ rs) [] = ⊥

abbrev change : ℕ → Option Bool → InvitationRow → InvitationRow
change now none x = x
change now (some true) x = as_claimed now x
change now (some false) x = as_recycled now x

module _ (cfg : InvitationConfig) (vault : Vault) (now : ℕ) where
  abbrev answer : InvitationRow → Option Bool
  answer r = vault.identity_exists r.prospective_identity_id

  abbrev changed : InvitationRow → List InvitationRow → List InvitationRow
  changed r table = update_where (has_voucher_id r.id) (change now (answer r)) table

  -- The loop as it changes the table.
  loop : List InvitationRow → List InvitationRow → List InvitationRow
  loop [] table = table
  loop (r ∷ rs) table = loop rs (changed r table)

  abbrev fate : InvitationRow → InvitationRow
  fate r = if is_over cfg now r then change now (answer r) r else r
