-- ===== src/Lib.antt =====
-- The execution control plane of OpenWork: runs, their audit chains, artifacts, worker leases,
-- cancellation and one-time approvals of actions, as the memory store keeps them; the policy that decides
-- on actions, the executor of claimed actions, and the two callers that take a run through a sandbox, the
-- orchestrator and the worker.
--
-- The program is a Rust workspace under crates/. Its core is crates/openwork-execution: a run is created
-- queued, a worker claims it under a lease, moves it through its states and writes artifacts; a
-- privileged action waits for an approval, which is consumed once and claims the action. Each change
-- appends hash-chained audit events. `ExecutionStore`, `RunQueueRepository` and `ApprovalRepository` are
-- the traits, and `InMemoryExecutionStore` of store/mod.rs implements all three over one state under a
-- mutex. crates/openwork-policy says of an action whether it is allowed, denied or waits for an approval;
-- the action executor runs an action whose claim the store holds, and files the receipt. The orchestrator
-- runs a stored run in a sandbox, and crates/openwork-worker a leased one, with heartbeats while the
-- sandbox runs; both file what the artifact scanner found, and both go through the store's operations only.
--
-- Which file models what:
--   Common       options, lists, sorted maps (`BTreeMap`), `Result`, and `Exec`, a state monad that keeps
--                the state on an error, as the code does; Common/Exec/Rules has the rules of the judgement
--                `Ensures E Q m s`: E of the state left by an error, Q of the value and state of a success
--   Core         crates/openwork-core/src/lib.rs: JSON values and redaction by key
--   Contract     crates/openwork-execution/src/lib.rs: identifiers, runs, audit events with their hash,
--                actions, approvals, sandbox results
--   Audit        crates/openwork-execution/src/audit/mod.rs: what is appended; Audit/Chain is the
--                specification of a chain that verifies
--   Store        crates/openwork-execution/src/store/mod.rs: Store itself has the state and the shared
--                steps, Store/Records the operations of `ExecutionStore`, Store/Queue with Store/Queue/Ops
--                those of `RunQueueRepository`, Store/Approvals those of `ApprovalRepository`, and
--                Store/Ops all of them as one type of calls
--   Lifecycle    the abstract machine of one run: what the store holds for it, and the steps it may take;
--                Lifecycle/Soundness its invariant, Lifecycle/History what it never takes back
--   Store/Slots, Store/Validity, Store/Authority
--                the abstraction from the store to the machines of the runs and of the approvals
--   Store/Refines, Store/Reach
--                the refinement of each operation, and of every list of calls
--   Store/Frame, Store/Grants
--                what the operations on runs and leases leave alone, and the approvals and claims over every
--                list of calls
--   Store/Came   the invariant that the callers of the store keep through their calls
--   Policy       crates/openwork-policy: Policy/Config the configuration and its checks, Policy/Engine the
--                evaluation of an action and the gateway (Contract/Policy has the types that they share)
--   Executor     crates/openwork-execution/src/action_executor.rs: the claim that is verified, the mock
--                executor, and the execution that files its receipt
--   Contract/Parse
--                the checked constructors of lib.rs, of digests, paths, sizes and actors
--   Orchestrator crates/openwork-execution/src/orchestrator/mod.rs, and Orchestrator/Scanner
--                crates/openwork-execution/src/artifact/mod.rs
--   Runtime      crates/openwork-runtime/src/task/mod.rs: Runtime/Decode the decoding of a sandbox's output
--                into events, the other files what a decoded stream is
--   Worker       crates/openwork-worker/src/lib.rs: Worker/Select the choice of a runtime and the router,
--                Worker/Supervise the loop of heartbeats, Worker/Ops the run of one claimed task (Contract/Task
--                has the task and the payloads of its events); the other files of the folder hold proofs
--   Demo         a concrete environment and calls on concrete inputs
--
-- Conventions. A function of the trait is a function of the same name. `with_lock` is the mutex: it is
-- not poisoned, since no code panics under it, and each operation is one critical section. Code that is
-- not in the repository (UUID text, RFC 3339, SHA-256, serde_json's printing) and `redact_text` are
-- fields of the record `External`, of which nothing is assumed but the 32 bytes of a digest, where a
-- theorem says so. UUIDs drawn inside an operation are its arguments. A timestamp counts nanoseconds from
-- the earliest instant; a revision and a sequence are `u64` with the checks for overflow. All recursion
-- is on lists, maps and JSON values, so there is no fuel. An error is its code and its message; the
-- messages are literals of the source, on which redaction has no effect that any code reads, and
-- `remediation` is never set in the modelled code.
--
-- Parameters of the callers. The YAML parser and the resource matcher of the policy, the executor of
-- actions, the file system of the scanner (a record of what each call answers), the sandbox, the runtime
-- adapters, the decoders of the providers and the processor of outputs are arguments, of which nothing is
-- assumed. A file system and a sandbox are functions, so that a call answers the same each time. What
-- others do to the store while a sandbox runs is a list of calls, `others`, which runs as a whole before
-- the caller goes on: each call is one critical section, so this is every interleaving at those places.
-- The worker's wait for its sandbox is a list of such lists, one for each heartbeat interval that passed;
-- that the list ends is that the sandbox answers. The clock readings and identifiers that a caller draws
-- are a record `Draws`, by the place that draws them; calls that others make between two other steps of a
-- caller are not in the model. Paths are compared as texts.
--
-- Not modelled: the PostgreSQL store, which is SQL run by a server; the adapters of the runtimes, what
-- detects and installs them, and the crates for the sandbox, the HTTP API, the connectors, the installer,
-- the command line and the end-to-end scenarios; the web interface.
pub mod Audit
pub mod Common
pub mod Contract
pub mod Core
pub mod Demo
pub mod Executor
pub mod Lifecycle
pub mod Orchestrator
pub mod Policy
pub mod Runtime
pub mod Store
pub mod Worker
