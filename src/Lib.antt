-- ===== src/Lib.antt =====
-- dash-faucet-cf: a faucet for Dash coins that runs as a Cloudflare Worker. The Worker checks who
-- asks, by a proof of work, an API key or a redemption code, and a Durable Object, the Treasury,
-- owns the coins and every ledger in its SQLite tables. This library models the Treasury
-- with what it rests on: the choice of coins, the transactions, the ledger of coins in flight, the
-- settling of a broadcast on the chain client, the API keys, the codes, the merges of coins and the
-- invitation vouchers; and the Worker's way from a request to a payout, with the proof-of-work
-- captcha.
--
-- The parts and their files (paths without the leading src/ are those of the repository):
--   Tx: the types of src/tx.ts, and the functions of the package dashtx as the record `DashTx`.
--     Tx/Select: `selectInputs` and `selectMergeInputs`. Tx/Build: `finish`, `buildPayout`,
--     `buildSplit`, `buildConsolidation`; Tx/Build/Payload: `assetLockPayload`; Tx/Build/AssetLock:
--     `buildInvitationAssetLock`; Tx/Build/Splits: what `buildSplit` guarantees.
--   Config: the settings that are read. Db: the tables of src/treasury.ts and src/accounts.ts, one
--     list of rows for each. Db/Sql: the SQL statements over such a list.
--   Chain: src/chain/index.ts, `knowsTx` and `anyKnowsTx`; the records `Provider` and `Client` are
--     what the providers of one call answer. Chain/Errors: the errors of src/chain/types.ts; Chain/Tip:
--     `heights`, `tipHeight`, `surveyWith`; Chain/Reading: `getUtxos`, `isCoinbase`,
--     `getChainLockStatus`; Chain/Relay: `broadcast`, `relay`; Chain/Settling: the Treasury on it.
--   Accounts: `createCodes`, `updateCode`, `checkCode` and `recordRedemption` of src/accounts.ts.
--   Treasury: src/treasury.ts. Ledger: `prune`, `reconcile`, `spendableUtxos`, `immatureTxids`,
--     `lockInputs`, `recordSpend`, `spentToday`. Broadcast: `settleBroadcast`. Keys: the handlers of
--     API keys. Merging: `spareCoins`, `mergeMaterial`, `planMerge`, `planTidy`, `mergeDemand` and
--     `scheduleMaintenance`. Admission: the checks at the start of `payoutLocked`. Payout: the rest
--     of it and `buildPayoutSparingCollateral`. Tokens: `consumeCapToken`. Maintenance: `maintain`,
--     `maintainLocked`, `consolidate` and `merge`. Books: the tables that record who was paid what.
--     Invitations: the inventory of vouchers; Invitations/Issuing: `issueInvitation`; /Minting:
--     `mintInvitation`; /Tending: `maintainInvitations`; /Lifecycle: the life of a voucher as a step
--     relation; /Rows, /Reclaiming and /Evolving: what the loops do to the table; /Ending: sequences
--     of calls; /Recorded and /Remembered: what they leave on record. Status: `snapshot`.
--   Captcha: src/cap.ts, over the code units of its texts. Captcha/Seeded: `prng` and `subChallenge`;
--     /Token: `mintChallenge`, `parseToken`, `deriveCapToken`, `verifyCapToken`; /Solving:
--     `verifySolutions`; /Hex: lemmas on hex and on the comparison.
--   Worker: src/index.ts, `verifyCaptcha` and `payoutFailure`, with `capTier` and `canEscalate` of
--     src/config.ts. Worker/Faucet: `handleFaucet`, `handleKeyFaucet`, `handleCapChallenge` and
--     `handleCapRedeem`, from the parsed body on.
--   Base: library names, tests on numbers and texts, lists over native numbers, sorting, integers.
--   Tests: a small wallet and network, runs of the functions, and the theorems at these runs.
-- A file below one of these holds the lemmas and the theorems on it, and is named for what they
-- say.
--
-- How the code is modelled. A method of the Treasury that holds the spending lock is one function
-- from the tables to the tables and a result; what the clock, the network and the libraries answer
-- during the call is its argument (`World`, `Network`). Methods that run without the lock while a
-- locked one waits for the network are not interleaved with it. Amounts, times in milliseconds and
-- sizes are natural numbers; a comparison with a difference is written as one of sums, and the fee,
-- which can be negative, is an integer. A UTC day is the number of days since the epoch, which
-- orders as its ISO text does. The key `txid:vout` of an outpoint is the pair. The stable sorts of
-- JavaScript are insertion sorts. `undefined` and `null` are `none`. The texts of a `detail` are the
-- data from which they are made; a promise that rejects is an outcome of its own. Random ids and
-- hashes are arguments. In a request to sign, the version and the type 0 and no payload stand for
-- fields that are left out. The factor 0.99 of maintenance is the exact fraction. Loops are
-- structural recursions over lists; `advance` of Tx/Select runs on fuel, one round for each window
-- of coins that the loop can reach, so it never runs out; the loop that hands out vouchers runs on
-- one round for each available voucher and one more.
--
-- The package dashtx (fees, drafts, signatures) and the relays are parameters. The theorem on merges
-- assumes of the package that it signs the inputs and outputs that it is given; no other theorem
-- assumes anything of it.
--
-- SHA-256, HMAC and `TextEncoder` are the record `Crypto`; theorems on the captcha assume of it that
-- an HMAC is 32 bytes. The loop of `prng` runs on fuel, one round for each digit that is asked for,
-- and a round appends eight. What Turnstile and the edge limiter answer, and what `parseCodeField`,
-- `parseAmountSats` and `parseRecipient` make of a field, are data of a request.
--
-- Not modelled: the providers of the chain and the directory of evonodes (the rest of src/chain;
-- which evonodes are sampled is part of a `Client`), the parsing of the configuration, users and
-- listings; and what is HTTP, HTML, cryptography or key handling alone (src/auth.ts, src/portal.ts,
-- the rest of src/index.ts, src/http.ts, src/keys.ts, src/invitation.ts).
pub mod Base
pub mod Tx
pub mod Config
pub mod Captcha
pub mod Chain
pub mod Db
pub mod Accounts
pub mod Treasury
pub mod Worker
pub mod Tests
