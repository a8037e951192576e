-- ===== src/Lib.antt =====
-- Governator runs coding agents on jobs under a contract: it routes a job to a backend, lets the
-- agent work in an isolated worktree, audits and validates the result, and merges or quarantines
-- it, with every decision in an SQLite ledger. This library models the parts that decide.
--
-- Dbtime (internal/dbtime/dbtime.go): the timestamps of the ledger. A time is its nanoseconds from
-- Go's zero time on, so that 0 is the zero time; a 64-bit integer is its bit pattern, with the
-- wrap-around of `UnixNano`. The formats of the package `time` are parameters.
--
-- Lifecycle (internal/lifecycle/lifecycle.go): the stages of a run and the edges between them.
-- `validate` is `Validate`; `record_checked` is `Record`, which reads the history of the run from
-- the rows of `run_stages` and inserts the stage (`StageHistory` and `RecordStage` of
-- internal/observability/ledger.go). The table is a list of rows, oldest first, with the unique key
-- of run and stage. `record_calls` makes any calls, of any runs, one after another, each with what
-- the database answers to its two statements.
--
-- Policy (internal/policy): the verdicts of the policy layers and the rules that give them.
-- `evaluate_layers` is `EvaluateLayers`, `resolve_overrides` is `ResolveOverrides` and `combine` is
-- `Combine` (decision.go and verdict.go); `unique_sorted` is `uniqueSorted`, with texts ordered by
-- their bytes. The stable sort of the standard library is an insertion sort. A verdict is a text in
-- Go, so that the data type has a constructor for the empty text and one for any other. The hash of
-- a decision (`encoding/json` and `crypto/sha256`) is a parameter.
-- Policy/Rules has the temporal rules over a run's events (`EvaluateTemporalRules` of rules.go) and
-- the coverage tables of events.go; globs and the expression of injections are parameters, and a
-- violation keeps the two events that its text is printed from. Policy/Conditions has the condition
-- rules (`Validate` of conditions.go) and Policy/Firing their evaluation; a fact is a value of one
-- of the types that the code tells apart, and what the code uses of `strings`, `strconv` and
-- floating-point numbers is the record `Library`.
--
-- Breaker (internal/breaker/breaker.go): the circuit breaker of each backend. `apply_policy` is
-- `applyPolicy` with one function per failure kind, and Breaker/Store has the tables
-- `breaker_state` and `breaker_events` with `RecordSuccess`, `RecordFailure` and `Reset`, each with
-- what the database answers to its statements. The answer of `quota.NextReset` is an argument of
-- the failure that reads it. A difference of times stops at 0 where Go's is negative, which the one
-- test that reads it does not tell apart; the doubling of the cooldown has the wrap-around of 64
-- bits. The text of an event's detail is kept as the values that it is printed from. Two operations
-- on one backend are taken one after another, as one process makes them. A stored time is its
-- nanoseconds, without the text that `formatTime` writes and `parseTime` reads.
--
-- Spend (internal/spend): the daily cap. Spend.antt has the halt file, `CheckBudget`, `MaybeHalt`
-- and the estimates (spend.go and estimate.go), Spend/Rows and Spend/Reservation the table
-- `spend_reservations` with `ReserveGlobal`, `SettleGlobal` and the releases (reservation.go), each
-- SQL statement a function of the ledger (the text columns of times are left out), and Spend/Accountant the reservations of one batch
-- (accountant.go). A dollar amount is a natural number of microdollars, signed where the code
-- compares it with zero, so that the rounding of floats is not seen. The processes that share the
-- ledger are any sequence of statements, which SQLite takes one after another; a transaction is
-- taken as one step. The ledger is there, and a time to live is not negative.
--
-- The jobs of a planner (Plan, internal/contracts/plan.go) and their levels. `level_ids` is `TopologicalLevels`,
-- which orders the jobs by Kahn's algorithm; a map from job ids is a function or a list of keys, and
-- a set of ids a list with no id twice. The loop over the levels runs on fuel, one more than there
-- are jobs, which is enough, since each round takes a job at least. `envelope_covers`
-- is `envelopeCovers`; a pattern is the list of its characters' codes there, and `path.Clean` of
-- the standard library is written out.
-- `validate_plan` is `ValidatePlan`; the check of one contract (`Validate` of schema.go), `TrimSpace` and
-- the codes of a text are arguments, and an error is a value of `PlanError`.
-- `resolve_artifact_sources` is `ResolveArtifactSources` with `plan_ancestors` for `planAncestors`; an
-- artifact is its name. Its recursion runs on fuel too, two more than there are jobs, which is
-- enough, since the jobs that are being visited are not visited again. What runs out of fuel is
-- a result of its own, and the theorems show that it does not occur.
--
-- Quota (internal/quota/quota.go): the windows of a provider's plan and the reservations against them.
-- Quota/Rows has each SQL statement as a function of the two tables, whose times stand as text beside
-- nanoseconds, Quota/Actions the statements and transactions, which end with a result or an error,
-- Quota/Calendar the starts and resets of windows, Quota/Operations `Reserve`, `Release`, `Settle`,
-- `ExpireStale`, `ReleaseForRun` and the rollovers, with what the database answers to their
-- statements, Quota/Windows `Headroom` and `Windows`, and Quota/Sources `SeedFromConfig`,
-- `ApplyResetHint` and `NextReset`. A transaction is
-- taken as one step. Usages and confidences are naturals and a share of headroom is an exact
-- fraction, so that the rounding of floats is not seen; a time to live is not negative. The months,
-- the layouts of times and the lower case of a text, which the standard library computes, are
-- parameters. The loop of `nextReset` runs on fuel 2; the start of a five-hour window is less than
-- ten hours ago, so that this is enough.
--
-- Router (internal/router/router.go): the choice of a backend. Router/Agents has `New` and the
-- capabilities of internal/agents with `candidatePool`, Router/Evidence what is read from the ledger,
-- Router/Score the weights and scores, Router/Excluded the hard exclusions, Router/Choice
-- `selectWinner` and the order of display, and Router/Resolve `evaluate` and `Resolve`.
-- The arithmetic of `float64` is the record `Floats`, of which the theorems take that comparisons
-- are an order, as IEEE 754 has them also with values that are not numbers; the ledger is what it
-- answers to each query, the hash of a policy and the cases of a text are parameters, and costs
-- are in microdollars. The stable sort is an insertion sort, and a map of counts is a list in one
-- of the orders that Go may take. Router/Health is `Store` of internal/breaker/health.go: the
-- breaker and the quotas as the router asks for them.
--
-- The parts meet in internal/runtime: a run reserves its estimate, records its stages, resolves
-- and evaluates the layers and rules before a gate, asks the router for a backend and reserves its
-- quota, tells the breaker how the backend did, and settles its cost; the levels say which jobs of
-- a batch may run at once. But for the two loops of Plan and that of a five-hour window, no
-- definition uses fuel: each recursion is on a list.
--
-- Not modelled: the processes, git and file system of the runtime, the SQL engine behind the
-- tables, the printing of messages, the backends' processes and handles (of internal/agents the
-- names and capabilities are modelled), and the other packages of internal/.
mod Prelude
pub mod Dbtime
pub mod Lifecycle
pub mod Policy
pub mod Spend
pub mod Plan
pub mod Quota
pub mod Router
pub mod Breaker
