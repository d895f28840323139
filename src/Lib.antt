-- ===== src/Lib.antt =====
-- Verification of the Cairn wallet, a browser extension that keeps the keys of a CSD account, builds its transactions
-- and signs them. The wallet trusts no node: what a node reports is evidence to be checked before anything is signed.
--
-- The parts and their files:
-- * Codec (src/core/csdtx.ts): the consensus byte layout `serialize`, the `stripped` form, `txid`, `sighash`.
--   Codec/Read and Codec/Wire hold an independent decoder, Codec/Binding what the bytes and the id bind.
-- * Net (src/core/node.ts `post`): the answer of a submission as a value.
-- * Spend (src/core/node.ts): Spend/Coins the coin list, Spend/Session the skip caches, Spend/Verify the chain check of
--   coin values, Spend/Select the selection rounds, Spend/Submit signing and the submission result, Spend/Outputs
--   the validation of payouts, Spend/Assemble `assembleValueTx`, Spend/Flows the requests, Spend/Consolidate the
--   merge of small coins, Spend/MaxSend the figure that Max offers. Each has its theorems in modules below it.
-- * Approval (src/background.ts): the queue of requests from web pages, their approval, and the connected sites.
-- * Inclusion (src/core/inclusion.ts): whether a sent transaction is shown as included, open or gone.
-- * History (src/core/history.ts): the store of sent transactions. History/Record records a submission, parks what the
--   store refuses and shows the rows; History/Reconcile settles open rows from chain reads. Each piece of work of the
--   write chain is one function on the state, with the failures of the store as arguments.
-- * Vault (src/core/keystore.ts, src/core/account.ts, src/core/wallet.ts): Vault/Keystore and Vault/Account the encrypted
--   vault and the keys, Vault/State the wallet's state and its document, Vault/Guard the throttle of password checks,
--   Vault/Lock locking and resetting, Vault/Open making and opening, Vault/Accounts and Vault/Accounts/Calls the
--   accounts, the calls that change them and the captured signer, Vault/Pending the queue of content to register.
-- * Claims (src/core/claims.ts): the sealed claims, parked, stored, capped and revealed.
-- * Fill (src/core/fillpreflight.ts, src/core/wallet.ts): Fill/Sums the sums of a fill's outputs, Fill/Lanes the two lanes
--   that attest the offer, Fill/Reserved the lane that attests a reservation, Fill/Preflight the check as a whole,
--   Fill/Flow the wallet's `fillOffer` and `attest` around it. Fill/Backed says what a fill that passes rests on.
-- * Headers (src/core/headerstore.ts): the bounds of header chunks, the cache of verified chunks, their acquisition.
-- * Names (src/core/namegate.ts, src/core/namecache.ts): the verdict on a name action, and when the confirm step may
--   skip the proof of a name. The source of header hashes is a parameter.
-- * CrossCheck (src/core/offerxcheck.ts): which answers of the second resolver refuse a fill.
-- * Base and Js: shared helpers, and the JavaScript numbers that the checks tell apart. Tests: concrete inputs.
--
-- The flows call `assembleValueTx`, which selects coins, verifies each against its source transaction by its
-- recomputed id, and signs and posts; the session caches pass through every call as a value, and so does the answer of
-- the node, an arbitrary function of what it is asked. Where a call waits between a read and a write of a store that
-- other calls write, the two are steps of their own (Vault/Pending/Steps) or the call takes what the others do meanwhile
-- as an argument (`Attempt` in Vault/Guard).
--
-- Parameters: the vendored `selectInputs` (`Selector`, with the two facts relied on: no excluded coin, at most 512),
-- hashing, hexadecimal and UTF-8 text (`Crypto`), the curve (`Signer`), the node's answers, the time and the
-- double-precision tenth of the fee cap (`World`). For the page requests: the wallet's own operations and what the
-- browser says of a sender. For the header chunks: what the store and the node return, and the vendored walk over
-- the records (`verify`). For fills: the vendored market rules and their constants (`Market`, `FlowRules`) and what
-- the resolvers, the node and the proof sources answer (`Reads`); a rule that throws ends the call with nothing
-- signed, and is not modelled. For the vault: the ciphers with their two laws (`Cipher`), the key derivation (`Kdf`)
-- and the phrase packages (`Phrases`).
--
-- Bounds: a selection has three rounds, as in the source, and the model counts them down; all other recursion is
-- structural, so no fuel can run out. Numbers keep the source's ranges: safe integers up to 2 ^ 53 - 1, 32-bit and
-- 64-bit fields by wrap-around.
--
-- Not modelled: the texts of messages for people; the order in which eight workers fetch source transactions (the
-- model has one worker's order); JSON fields of the wrong type, but for the numbers; null elements of a coin list;
-- the second read of the coin list in `maxSendable`, which the model takes to be the first. Rendering, the vendored
-- SPV engine, the QR encoder, and the components that are not here yet: the proof of names, the scan of blocks
-- behind a reservation's proof, the sign-in message. In the content queue: a reset's deletion of it. In the vault:
-- failures of the session store other than those that the count of password checks meets, a lock while a removal waits for its password check (the model refuses the
-- removal then), and vault documents with fields of the wrong type; the JSON text of a document is the document.
-- Recovery phrases are ASCII.
pub mod Base
pub mod Js
pub mod Codec
pub mod Net
pub mod Spend
pub mod Approval
pub mod Inclusion
pub mod History
pub mod Vault
pub mod Claims
pub mod Fill
pub mod Headers
pub mod Names
pub mod CrossCheck
pub mod Tests
