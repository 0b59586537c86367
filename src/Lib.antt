-- ===== src/Lib.antt =====
-- Verification of the MAP reference server (Micro Agent Protocol): the control plane's stores and
-- queue, the orchestrator that drives them, the registry of agents, the delegation of tasks to
-- micro agents, the policy engine, the rate limits, the signatures and the audit log.
--
-- A task that a requester dispatches is kept in the task store, moves between statuses along a
-- transition table, and ends with a result and a receipt. The policy engine decides, before
-- anything runs, whether an intent is allowed, denied or held for approval. A micro agent runs a
-- task only with a delegation token that was issued for it. Asynchronous tasks wait in the queue,
-- and the server refuses mutations above the rate limits.
--
-- Base holds what the other files share. Base/Dict is the language's Map, an association list in
-- insertion order; Base/Json the values of JSON and of untyped records, and JSON.stringify;
-- Base/Text the tests on texts and the fallback to the default tenant; Base/Results the errors
-- that code throws, as values.
-- Protocol: src/protocol/map-types.ts, the types that are kept and passed on.
-- ControlPlane/TaskStore: src/control-plane/task-store.ts. TaskStore is the class's two maps;
--   save, get, get_by_tenant, update, list, list_by_tenant, find_by_idempotency_key,
--   list_receipts, get_receipt, delete and hydrate its methods. TaskGuards beside it is the same
--   file's transition table and the guards that a save and an update pass. TaskStore/Transitions,
--   Accepts, Update, Invariant, History and Tenants hold the proofs.
-- ControlPlane/ReceiptStore: src/control-plane/receipt-store.ts. ReceiptStore is the class's map
--   and its order; append, get, list, list_by_tenant, verify_receipt_integrity and hydrate its
--   methods. The comparison of two Date values is a parameter of the integrity check.
-- ControlPlane/AsyncQueue: src/control-plane/async-queue.ts. State holds the class's fields, with
--   the jobs, timers and microtasks that the event loop holds, and the operations that start no
--   job; Loop the calls of maybeRunJobs, startJob and finishJob; Steps what the event loop runs
--   without a break. The loop of maybeRunJobs is on fuel, one more than there are jobs in the
--   queue.
-- ControlPlane/Registry: src/control-plane/registry.ts, with the descriptors of
--   src/protocol/map-types.ts in ControlPlane/Agents. Signing a descriptor, checking a signature
--   and the schema are parameters; Security/Trust holds the trust anchors of
--   src/security/signing.ts.
-- ControlPlane/Orchestrator: src/control-plane/orchestrator.ts. State holds the class's fields
--   and how its code runs: an Action returns a value or what it threw, and keeps what it wrote.
--   Plan is `dispatch` up to its first write, Negotiation the choice of schema version and
--   delivery, Outputs and Answers the results and receipts, Dispatch the rest of `dispatch` and
--   the two closures of a job, Approval `approve`, Cancel `cancelTask`, Polling
--   waitForStoredResult. A call that awaits the executor ends there and goes on in a definition
--   of its own (settle, settle_approval), which may find another state; Events puts such pieces
--   in any order. Effects, Acts, Complete under TaskStore and History say what all this does to
--   the task store, Sealed, Signatures and Receipts what it leaves of receipts.
-- Integration/EcpBridge: src/integration/ecp-bridge.ts, the intent that an envelope stands for;
--   Integration/Envelope the envelopes. JSON.parse is a parameter.
-- ControlPlane/Delegation: src/control-plane/delegation.ts, which issues the tokens that agents
--   check.
-- Runtime/MicroAgent: the check of a delegation token in src/runtime/micro-agent.ts, with the map
--   of uses that all agents of a process share; Runtime/Scope the comparison of a token's scope
--   with a task's constraints; Runtime/Outputs the result and the receipt that an agent builds,
--   which go into the task store; Runtime/Envelope the tokens and envelopes of
--   src/protocol/map-types.ts. Schema validation, signatures, Date.parse and localeCompare are
--   parameters.
-- Core/Types: src/core/types.ts. Core/Policy: src/core/policy/index.ts, with the compiled
--   capability matchers (Matcher), field paths, operators and compiled conditions (Condition) and
--   the evaluation of documents (Engine).
-- Core/Intent and Core/Executor: src/core/intent/index.ts and src/core/execution/index.ts, from
--   the validation of an intent to the call of an adapter. Core/Execute: src/core/execute.ts,
--   which evaluates the same policy documents with an interpreter of its own.
-- Server/Audit: src/server/services/audit-manager.ts. AuditManager is the class's state; Chain
--   and Checkpoints say what the two loops of verifyAuditIntegrity find nothing against, Steps
--   what a log holds after any number of events, Recorded when its check passes, Tampering what
--   the check protects. SHA-256 and the signatures are parameters; Base/Decimal writes a number
--   as a text.
-- Security/Signatures: the compact signatures of src/security/signing.ts, with the primitives of
--   cryptography as parameters; Base/Split the parts of a text between its dots.
-- Security/Nonces: verifyNonce of src/security/signing.ts, with the cache as a Map of times.
-- Server/Auth: src/server/middleware/auth.ts, the check of a signed request with
--   verifyHttpRequestSignature of src/security/signing.ts; Bearer the check of a bearer token,
--   Mutations which of the two the routes of src/server/mutation-routes.ts ask for.
-- Server/RateLimit: src/server/middleware/rate-limit.ts. Server/RateLimiter:
--   src/server/services/rate-limiter.ts, which checks the same limits.
--
-- Validation. The schemas are parameters. The source's validator also deletes, in place, what a
-- schema does not list (removeAdditional, src/validation/schema-validator.ts): validating an
-- envelope or a token is a function to the one that it leaves, or to none if it throws, and what
-- comes after sees that one. A descriptor loses its extensions, and a result its context id and its
-- extensions.
--
-- Conventions. The clock and the time stamps are arguments. A method that throws returns an error
-- value and the state stays. An optional property is an Option; a property that is there and
-- undefined is taken as missing, as JSON.stringify takes it, and no update writes one. Keys of an
-- object stand in the order of its type, so that two objects of one type have one text exactly if
-- their fields do. Numbers are whole, or NaN. Texts are lists of code points.
--
-- Not modelled: the rotation of keys and canonical JSON; the adapters; the routes, but for the
-- checks of who sends a request; SQLite and files; the posting of webhooks, of which only what is
-- posted is kept; inherited properties of JavaScript objects; the meaning that characters other
-- than `.` and `*` have in the regular expression of a capability glob, where the theorems ask for
-- globs without them (IsPlain); conditions with the keys of two forms, but for the comparisons that
-- Core/Types describes; the cache of compiled policies, which is a function of the
-- document; HTTP, cryptography and the SDKs.
-- The wait for a stored result looks 200 times, as the code does, and needs no other bound.
-- Fuel is used in the loop that starts jobs, where one more than the length of the queue is
-- enough, and for the decimal digits of a number n in Base/Json and Base/Decimal, of which there
-- are at most n + 1.
pub mod Base
pub mod Protocol
pub mod Core
pub mod ControlPlane
pub mod Server
pub mod Runtime
pub mod Security
pub mod Integration
