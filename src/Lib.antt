-- ===== src/Lib.antt =====
-- Verification library of SKAUS, privacy-preserving payments on Solana.
--
-- A payer splits an amount into deposits of fixed sizes and sends each to a pool program on the
-- chain. The gateway indexes the notes of the deposits from the chain into its database, resolves the
-- names of recipients from the accounts of a name registry, and keeps profiles and payment requests
-- that payers settle. A recipient, whose keys come of a PIN and a signature of the wallet, scans the
-- notes, computes a Merkle path and a proof, and hands the withdrawal to a relayer, which sends it:
-- either the gateway's own service, or the stand-alone relayer with its queue of jobs. Both build the
-- same instruction for the same program. The pages of the web application drive this: the onboarding,
-- the login, the payment pages and the dashboard.
--
-- Which file models which part, with the paths of the repository:
--   Relayer/Job, Relayer/Queue     packages/relayer/src/queue.ts: a job, from its count of attempts to
--                                  its status behind the send (`_processJob`, the job's part of `_poll`)
--   Relayer/Poll                   packages/relayer/src/queue.ts: start, stop, `_poll`, its timers
--   Relayer/Routes                 packages/relayer/src/routes/jobs.ts: POST /jobs, GET /jobs/:id
--   Relayer/Instruction            packages/relayer/src/executor.ts: checks, data, accounts
--   Relayer/Executor               packages/relayer/src/executor.ts: retries, priority fee
--   Gateway/Accounts               apps/gateway/src/services/relay.ts: checks, data, accounts
--   Gateway/Submission             apps/gateway/src/services/relay.ts: capacity, attempts, fee
--   Requests/Slug                  apps/gateway/src/routes/requests.ts: `toSlug`
--   Requests/Row, Requests/Routes  apps/gateway/src/routes/requests.ts: rows and handlers
--   Indexer/Subscriber             apps/gateway/src/services/indexer.ts: `HeliusGeyserSubscriber`
--   Indexer/Events                 apps/gateway/src/services/indexer.ts: `DepositIndexer`
--   Notes/Encryption               packages/crypto/src/encryption.ts, packages/crypto/src/stealth.ts
--   Notes/Viewing                  packages/crypto/src/viewing-key.ts: credentials for auditors
--   Deposit/Tiers                  packages/types/src/index.ts, apps/web/src/lib/deposit.ts: the split
--   Deposit/Transaction            packages/sdk/src/pool/index.ts: the instruction of a deposit
--   Deposit/Execution              apps/web/src/lib/deposit.ts: `executeDeposit`, with
--                                  packages/crypto/src/commitment.ts
--   Wallet/Scan                    apps/web/src/lib/scan.ts: both scans for a recipient's deposits
--   Names/Validity, Names/Hash     packages/crypto/src/name-registry.ts, beside the program's
--                                  programs/name-registry/src/utils/validation.rs
--   Names/Record, Names/Resolver   apps/gateway/src/services/name-resolver.ts, and the reading of a
--                                  record in apps/gateway/src/services/name-indexer.ts
--   Names/Indexer                  apps/gateway/src/services/name-indexer.ts,
--                                  apps/gateway/src/routes/webhooks.ts
--   Names/Registration             apps/gateway/src/routes/names.ts: POST /names/register
--   Names/Routes                   apps/gateway/src/routes/names.ts: the other routes,
--                                  apps/gateway/src/routes/paylink.ts
--   Profiles/Codec                 packages/sdk/src/compression/types.ts
--   Profiles/Store                 apps/gateway/src/services/profile.ts and
--                                  apps/gateway/src/services/compression.ts
--   Profiles/Gated                 apps/gateway/src/routes/profiles.ts: content that payments unlock
--   Profiles/Routes                apps/gateway/src/routes/profiles.ts: the reads, the put, and the
--                                  link of a profile to the chain with its confirmation
--   Gateway/Media                  apps/gateway/src/routes/media.ts: avatars
--   Gateway/Balances               apps/gateway/src/services/goldrush.ts,
--                                  apps/gateway/src/routes/analytics.ts
--   Web/Keys                       packages/crypto/src/keys.ts, apps/web/src/lib/onboarding.ts: the keys
--                                  of a PIN; the cells of a PIN as the pages handle them
--   Web/Usernames                  apps/web/src/lib/onboarding.ts, apps/web/src/app/onboarding/page.tsx
--   Web/Onboarding                 apps/web/src/app/onboarding/page.tsx: the registration
--   Web/Login                      apps/web/src/app/login/page.tsx, and the scan of
--                                  apps/web/src/app/dashboard/page.tsx
--   Web/Withdrawals                apps/web/src/app/dashboard/page.tsx: `confirmWithdraw`
--   Web/Payments                   the pages pay/[username], [username], [username]/[slug] and
--                                  [username]/request/[requestId] of apps/web/src/app, with
--                                  apps/web/src/lib/keys.ts
--   Web/Activity                   apps/web/src/app/dashboard/activities/page.tsx, and the
--                                  notifications of apps/web/src/components/DashboardShell.tsx
--   Withdraw/Hex, Withdraw/Merkle  packages/sdk/src/pool/proof.ts, beside the program's
--                                  programs/stealth-pool/src/utils/merkle.rs
--   Withdraw/Flow                  apps/web/src/lib/withdraw.ts: `executeWithdraw`
-- The modules below each of these hold its lemmas, the Tests modules hold runs at concrete inputs.
-- Prelude has what they share: tests on numbers, lists by native numbers, bytes, and tables.
--
-- State and operations. A handler or a method is a function from the state it reads to the state it
-- leaves, with its reply. A definition has the source's name in the spelling of this library. Numbers
-- are natural numbers; bytes are numbers in a list; `undefined` and `null` are `none`. Times are
-- arguments. The error texts that a client is sent are constructors.
--
-- What is a parameter. A table of the database is a record of reads and writes with laws that say
-- what a read gives after a write (Prelude/Database, NameTable, ProfileTable), and an instance shows
-- that they can be met; a query that writes comes with a reply, which may be an error although the
-- write took effect, or is `none` where the caller only drops the error. What the Solana and Node
-- libraries derive, decode or send (Host, Chain, Attempt, Outcome, Texts, Network, Setting, Payer,
-- KeyPrimitives), the calls of the compression library (Light), the Poseidon hash, SHA-256, X25519,
-- HKDF, AES and JSON (Primitives, CredentialTexts, Cipher), the floating-point numbers of amounts
-- (Numbers, Money, Amounts), Borsh and the conversion to lower case are arguments as well.
--
-- Bounds and fuel. The inner loop of the tier split takes fuel, one more than the amount, and the
-- split is shown to end for tiers of at least 1. The digits of a number take the number as fuel, which
-- is at least their count. The loops of attempts, of levels and over lists are by recursion on their
-- bound. A 64-bit amount that does not fit is the error that the source throws. The Merkle index is
-- read modulo 2 at each of 20 levels, which agrees with the source's 32-bit operations on these bits.
--
-- What is not modelled. A handler of the gateway runs with no other between its queries; the queue's
-- polls and the gateway's submissions do interleave. The conversion of 64-bit times and indices to
-- floating-point numbers is not rounded. Of the web pages the views, the settings and the links are
-- left out, and an effect of a page runs with no other between its queries. The widget, the calls of
-- the compression library, and the health, relay and indexer routes of the gateway are left out, and
-- so are the circuits and the programs but for the Merkle insertion, the checks of a name and the
-- layouts of accounts and instructions that the services read and write.
pub mod Prelude
pub mod Relayer
pub mod Deposit
pub mod Withdraw
pub mod Requests
pub mod Gateway
pub mod Indexer
pub mod Notes
pub mod Names
pub mod Wallet
pub mod Profiles
pub mod Web
