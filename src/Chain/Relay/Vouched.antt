-- ===== src/Chain/Relay/Vouched.antt =====
-- What the result of `broadcast` in src/chain/index.ts rests on.
use dash_faucet_cf.Base.{String, ◌≡◌, ◌⊎◌, true, false, List, ◌++◌, any, all}
use dash_faucet_cf.Treasury.{BroadcastResult}
use dash_faucet_cf.Treasury.Broadcast.{is_empty}
use dash_faucet_cf.Chain.{Provider, Client}
use dash_faucet_cf.Chain.Tip.{active}
use dash_faucet_cf.Chain.Relay.{Relayed, relay, none_relayed, relays}
use dash_faucet_cf.Chain.Relay.Verdicts.{took, refuses}

-- Every relay that may be asked.
abbrev pub asked : Client → List Provider
asked c = relays (active c) ++ relays c.fallback

module _ (c : Client) (txid : String) where
  abbrev first : Relayed
  first = relay txid (relays (active c)) none_relayed

  -- A configured relay took the transaction; or none did, and then nothing is left open exactly if
  -- every relay refused it outright.
  abbrev pub IsVouched : BroadcastResult → Type 0
  IsVouched r =
      ((is_empty r.accepted ≡ false) × (any (took txid) (asked c) ≡ true))
      ⊎ ((is_empty r.accepted ≡ true)
          × (any (took txid) (asked c) ≡ false)
          × (is_empty r.ambiguous ≡ all (refuses txid) (asked c)))
