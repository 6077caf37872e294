-- ===== src/Lib.antt =====
-- Safeguard hooks: the on-chain compliance layer of a confidential token. A token contract calls a
-- hook before each operation; the hook allows it or fails with a stable error code.
--
-- Parts and files.
--   HookCore/      crates/hook-core/src: Party (party.rs), Operation (operation.rs), Reason
--                  (reason.rs), Decision (decision.rs), Context (context.rs); Codes and Roles hold
--                  what is proved of them.
--   Host.antt      the soroban-sdk host, a record of operations and of their documented behaviour.
--                  Host/Run is code on that host (an environment in, an environment and a value
--                  out, or a panic), Host/Calls its calls as code, Host/Simple an instance that
--                  runs.
--   Storage/       crates/storage/src: Keys (keys.rs and the two stored records), Entries (all the
--                  functions of lib.rs, admin.rs, bindings.rs, config.rs, freeze.rs, versions.rs),
--                  Registry (the abstract registry that an environment shows), Entries/Reads,
--                  Entries/Puts, Entries/Writes and Entries/Lifetimes (the functions against the
--                  registry).
--   Events/        crates/events/src/lib.rs.
--   Authorization  crates/authorization/src/{admin, token}.rs.
--   PolicyClient   crates/policy-client/src/client.rs.
--   Compliance/    crates/compliance/src: Sac (sac.rs), Evaluator (evaluator.rs). Evaluator/Checks
--                  is the specification, a flat list of checks; Evaluator/Gates and Evaluator/Refines
--                  relate the two. Evaluator/Questions lists what an operation asks of other
--                  contracts and the worlds that the questions lead through, and Asking finds them
--                  among the checks; Agreement, Clearance and Allows, Failures and Denials, and
--                  Budget are about allowing, denying, and the calls made.
--   ComplianceHooks.antt
--                  contracts/compliance-hooks/src/lib.rs: the entry points. Transition is the
--                  specification, a state machine on the registry; Refines relates the two; Effects
--                  is the inversion of the state machine; Returns, Authority, Frozen, Redundant,
--                  Setup and Audit hold what is true of one call and of the whole life of a
--                  deployment.
--   SamplePolicy   contracts/sample-policy/src/lib.rs; SamplePolicy/Gate puts it behind the
--                  evaluator, and SamplePolicy/Launch behind the hooks of a new deployment.
--   Cli/           cli/src: Text and Decimal (what is used of str and of number formatting), Arguments
--                  and Revert (stellar.rs), Interface (the contract's calls as its commands), Stellar
--                  (its runner), Outcome (stellar.rs, and view and gate of main.rs), Config
--                  (config.rs), Step and Deploy (run_deploy and ensure_network of main.rs; Outputs,
--                  Plan, Prefix and BringUp hold what it does when it succeeds, when it fails, and what
--                  the contract makes of it), Checks, Verify and Smoke (verify of main.rs, its
--                  report and its command), App (the commands of main.rs), Main (main and run).
--   Tests/         one deployment on Host/Simple, with a run for each theorem.
--
-- How the code is modelled. A function of the contract that takes `&Env` is a function of the monad
-- of Host/Run, in do notation, call for call; `?` and an early `return` are `or_return` and
-- `unless_denied`. The environment is the host's, not a model of storage: what is known of it are
-- the laws of the record `Host`, all of them about `has`, `get`, `set`, `remove`, `extend_ttl`,
-- `require_auth`, `publish` and `try_invoke_contract` one at a time. Nothing is assumed of the answers
-- of other contracts, which may change from call to call; only where the sample policy is deployed,
-- it is taken (as `Runs` of SamplePolicy/Gate) that its address runs its code. A panic of the host
-- aborts the invocation. Names of the model are those of the code; a `from` or `to` account of a hook is
-- `source` or `target` where the specification names it.
--
-- Numbers. `u32` values are natural numbers; the one addition on them, in `bump_config_version`,
-- panics at 2 ^ 32 - 1, as the code is built with overflow checks. The loops run over the parties
-- of an operation by structural recursion. Only the printing of a number has fuel, the number itself,
-- which is more than its digits.
--
-- Not modelled. The wire encoding of events and of contract types is generated by macros. Signature
-- schemes, fees and ledger closing are the host's: `signed` and `after_auth` stand for the first,
-- and an entry's expiry is not followed beyond the lifetime that a read leaves it.
-- Of the command line, starting a process, files, environment variables, the terminal, serde_json, the
-- quoted form of a text and the reading of bytes as text are parameters on an arbitrary state of the
-- world, gathered in the record `Platform` of Cli/Main. Its arguments are taken as clap has parsed them:
-- which of them exclude or require each other is left to it. The two arms of `run` that are marked
-- unreachable end with an error in the model, and are not reached.
pub mod Prelude
pub mod HookCore
pub mod Host
pub mod Storage
pub mod Events
pub mod Authorization
pub mod PolicyClient
pub mod Compliance
pub mod ComplianceHooks
pub mod SamplePolicy
pub mod Cli
pub mod Tests
