-- ===== src/Lib.antt =====
-- SynapseOS: the rules that its agents, tasks and merges obey.
--
-- The program runs agents on tasks. A task has a status, which only the state machine may change;
-- a guard on the database session checks that at every flush. An agent works on a task in a bounded
-- loop, the runtime, which asks a reasoner (a language model) what to do, calls tools through an
-- executor, and records every step. A merge gate decides on the evidence of review, tests, QA and
-- security whether a branch may be merged.
--
-- Which file models which part:
--
-- - Base and its children: the names of the libraries that are shared, lists and tests on the
--   native numbers, `str.strip`, and the result of a call that may raise.
-- - Enums: core/enums.py.
-- - Tasks/Graph, Tasks/StateMachine: core/tasks/state_machine.py (the table, `can_transition`,
--   `transition`); Tasks/Event: the audit event of infrastructure/database/models/history.py.
-- - Tasks/Guard: infrastructure/database/task_status_guard.py. A task holds the status of its row
--   (`persisted`), the attribute (`status`) and its pending authorization; a session holds the
--   tasks, the events to be written and those written. `flush` is the listener before a flush, the
--   writes, and the listener after it. A transaction holds a session and what the last commit left:
--   `commit` is a flush that stays, and `rollback`, with its listener, goes back to it, so that what
--   was flushed since is undone.
-- - Tasks/Walks, Invariant, Reach, Rows, Accept: walks on the graph, the operations of a session as
--   a step relation, and what they keep.
-- - Runtime/Types: core/runtime/types.py, errors.py, audit.py; Runtime/Stagnation:
--   core/runtime/stagnation.py; Runtime/Machine and Runtime/Loop: core/runtime/runtime.py. The
--   reasoner, the tool executor and the audit recorder are parameters, functions that may change
--   the outside world and may raise. An action of the loop ends with a value, leaves by `return` or
--   `continue`, or raises; the state reached stays in every case.
-- - Runtime/Triple, Bounds, Results, Streak: rules for such actions, and what a run keeps.
-- - PullRequests/Types, Gate: core/pull_requests/types.py and gate.py; PullRequests/Evidence,
--   Mergeable: what the gate asks, without the order of its tests.
-- - Permissions/Types, Policy, Engine: core/permissions/types.py, infrastructure/permissions/policy.py
--   and core/permissions/engine.py. The policy reads the rows of a database given as lists; the
--   engine takes a policy, a clock and a recorder. Permissions/Authority, Granted, Audited: what
--   an `ALLOW` and any decision come with.
-- - Scheduling/Scheduler: core/scheduling/scheduler.py, with the matcher of core/agent_registry as a
--   parameter; Scheduling/Exclusive: what scheduling and release keep; Scheduling/Stable: which match a
--   request gets; Scheduling/Matched: the scheduler with the matcher of Matching.
-- - Escalation/Engine: core/escalation/engine.py and types.py, with the two sinks as parameters;
--   Escalation/Emitted: which rule fires, and what it has emitted.
-- - Effects: calls that change the world and may raise; Effects/Trace: what they add to a trace.
-- - Tools/Types, Registry, Executor: core/tools. A tool, its transaction, the audit recorder and the
--   permission engine are parameters, functions that may change the outside world. Tools/Traced
--   records the calls that reach them; Tools/Lifecycle says in which order they may come,
--   Tools/Protocol that the executor keeps to it, and Tools/Guarantees what follows.
-- - Decomposition/Graph: the validator `require_valid_dependency_graph` of
--   core/domain_decomposition/types.py; its `while` loop runs on as many rounds as there are
--   identifiers. Decomposition/Resolution and Accepted: that these suffice, and what is accepted.
--   Decomposition/Decomposer: core/domain_decomposition/decomposer.py and the workstream's own
--   validator, with the provider as a parameter; Decomposition/Decomposed: what is returned.
-- - Workflows/Types, Stages, Checkpoints: core/workflows/audit.py, with the errors and results of
--   core/workflows. A checkpoint locks the task's row, compares it with what it expects, stages its
--   changes by the task state machine of Tasks, and commits; the calls of the database are
--   parameters, which may fail. Workflows/Orchestrator: core/workflows/orchestrator.py; the
--   preflight and the collaborators are parameters, which may change the world, the task's row
--   included. Workflows/Moves, Committed: where a stage and a checkpoint take a task; Escalated,
--   Cycles, Ended: what a run that fails leaves; Truthful: what its result tells. Effects/Triple has
--   the rules.
-- - Matching/Matcher: core/agent_registry/matcher.py and types.py, with scores as numbers of
--   ten-thousandths; Matching/Ranked: which agents it ranks, and how.
-- - Budget/Engine: core/budget/engine.py and types.py; Budget/Ceilings: what its decisions say of the
--   ceilings.
-- - Career/Policy: core/career/policy.py and types.py; Career/Coherent: that recommendations do not
--   contradict one another.
-- - The modules called Examples: the theorems at work on concrete values.
--
-- Bounds and fuel: the `while` loop of `require_valid_dependency_graph` runs on one round for each
-- identifier, and gives nothing if they do not suffice; each of its rounds resolves an identifier or
-- ends the loop. Nothing else runs on fuel: the loops of the runtime and of the orchestrators are a
-- `for` over a range, which is recursion on the number of rounds left, and every other loop goes along
-- a list or a text. Numbers are natural numbers without a bound, as Python's are; decimals and times
-- are numbers of a small unit; a bound that the program states is a test of the model
-- (`is_valid_record`, `is_valid_result`, `is_valid_request`).
--
-- Not modelled: clocks, so that the global timeout strikes whenever a collaborator
-- raises it; identifiers are numbers; texts of summaries and reports; pydantic's pattern test, JSON
-- encoding and hashing, which are parameters; the database, of which a session keeps the rows of
-- its tasks and audit events. The order in which a flush visits changed tasks, which is a set's in
-- Python, is a list's here: it decides which error is raised, not whether one is.
pub mod Base
pub mod Enums
pub mod Tasks
pub mod Runtime
pub mod PullRequests
pub mod Permissions
pub mod Scheduling
pub mod Escalation
pub mod Effects
pub mod Tools
pub mod Decomposition
pub mod Workflows
pub mod Matching
pub mod Budget
pub mod Career
