-- ===== src/Lib.antt =====
-- A model of galaxz, an agent platform: its durable jobs, goals, policy, routing and artifacts.
--
-- The program. Services hand tasks to agents through durable jobs. core/jobs/repository.py keeps
-- the jobs in tables of a relational store: a caller enqueues a job under an idempotency key, a
-- worker claims it and holds it by a lease that it extends with heartbeats, and ends it by
-- `complete` or `record_failure`; `reclaim_expired` takes back the jobs of workers that went
-- silent, and completions with artifacts wait in an outbox. Goals are plans of tasks with
-- dependencies; the coordinator turns the tasks that are ready into jobs, and reads their results
-- back. The completion publisher takes the outbox to the store of artifacts and the queue of
-- reviews. A task is routed to an agent by a graph of nodes (agents/andromeda), over the registry
-- of agents (core/pulsar). Before an agent runs, core/policy decides by rules whether its skills
-- may, and single-use grants let a held task pass.
--
-- What models what:
--   Prelude: tests, results, signed numbers, texts with `str.strip`, `sorted`, and keyed tables.
--   Contracts/Job, Contracts/Job/Transitions: core/contracts/jobs.py, the records with the checks
--     of their validators, and the table of transitions.
--   Contracts/Task, Contracts/Skill: tasks, skills and feedback of core/contracts/contracts.py.
--     Contracts/Json: JSON values.
--   Jobs/Store: the tables of core/jobs/migrations.py, the reading of rows, and a transaction,
--     which commits the tables of its body or, on an exception, leaves them as they were.
--   Jobs/Enqueue, Claim, Heartbeat, Finish, Failure, Cancel, Reclaim, Outbox, Listing: one file for
--     each operation of SqliteJobRepository, on every branch. Jobs/Lease: `_active_attempt` and
--     `_insert_attempt`. Jobs/Backoff: the delay before a retry.
--   Jobs/Invariant: what holds of the tables, and the updates that keep it. Jobs/Safety: each
--     operation keeps it. Jobs/System: sequences of calls. Jobs/Selection, Stale, Recovery and
--     Repeat: what claims, workers without a lease, the sweep and repeated calls do. Jobs/Idle and
--     Jobs/Failed: the answers of `claim` and `record_failure`.
--   Jobs/Worker: core/jobs/worker.py, with the executor as a parameter and each turn of its loops
--     as a step; Worker/Executions, Endings, Beats and Cycle: what these steps
--     do.
--   Goals/Plan, Goals/Store: the planned tasks of core/contracts/contracts.py and
--     core/goals/store.py. Goals/Claiming, Goals/Rollup: `try_claim` and `rollup`. Goals/Saving:
--     `save_plan`, the bindings of repositories and `goal_tree`.
--   Goals/Substitution: core/goals/substitution.py; Substitution/Reference has the pattern of
--     references.
--   Goals/Reconcile: `reconcile`, `start` and `reconcile_all` of core/goals/coordinator.py. Its
--     three loops are Reconcile/Settle, Goals/Blocking and Reconcile/Dispatch. Goals/Control:
--     `pause` and `cancel`. Goals/Rerun: `rerun`. Goals/Keys: the idempotency keys. Goals/Diagram:
--     how the status of a task moves. Goals/Rows, Reading: the rows that a coordinator leaves.
--   Goals/Runner: agents/andromeda/goal_runner.py.
--   Agents/TaskLog: agents/andromeda/task_log.py. Agents/Registry: core/pulsar/registry.py.
--     Agents/Routing: the graph of agents/andromeda/orchestrator.py and
--     agents/andromeda/nodes.py. Routing/State is its state, Routing/Screen its policy node,
--     Routing/Match the choice of an agent, and Routing/Graph the other nodes, the edges and a
--     run.
--   Completion/Artifacts: core/artifacts/store.py. Completion/Reviews:
--     agents/andromeda/review_queue.py. Artifacts/Versions: its queries and its retention.
--     Completion/Publisher: core/jobs/completion.py, which replays the outbox into these two.
--   Security/Scan: core/security/artifact_scan.py. Llm/Limiter: core/llm/limiter.py.
--   Policy/Glob: `fnmatch.fnmatchcase` of the standard library. Policy/Engine and Policy/Load:
--     core/policy/engine.py. Policy/Grants: core/policy/grants.py.
--   Tests: runs at concrete inputs, and the theorems at such inputs.
--
-- How it is modelled. A UUID is a number, in the order of the canonical texts. A time is a number
-- of microseconds in UTC, so that the order of the stored texts is that of numbers. Durations are
-- numbers of microseconds; one that is not positive is 0. The clock and the new identifiers are
-- arguments, and the theorems hold for all of them, so also for a clock that runs backwards or an
-- identifier that repeats. A table is a list of rows in the order of insertion; UNIQUE and
-- foreign keys are checks that raise `integrity_error`. BEGIN IMMEDIATE, or the lock of the
-- grants, makes a call one step, so that concurrent callers are sequences of calls. An exception
-- is a value of `Error`, without its text. The coordinator's state is the pair of its store and
-- the tables of jobs; for each task that it sends, the job's identifier and the times are
-- functions of the task's, the fields of `Draw`. The tables of goals are those that the
-- connection sees, so that they hold the rows of a transaction that is still open. A result of a
-- job is a JSON object, as its type says, in which a confidence is a number or absent; a number
-- is a fixed-point number. The length of its text, the texts of exceptions (`Texts`), SHA-256
-- (`hash`) and the JSON of a whole number (`integer`) are parameters of no assumption. The slots
-- of `reconcile` stop at 0, where the source tests `slots <= 0`. The power of 2 in the retry
-- delay is exact, and raises where Python's conversion to a float does, from 2 ** 1024. Three
-- loops run on fuel, and every other loop is structural. `while changed` of `reconcile` has one
-- more than the tasks, as each pass but the last loses a task; `while True` of the goal runner
-- has one more than the waiting tasks, as each turn but the last ends the waiting of one; the
-- walk through the graph of a routing has the limit of 25 steps of the graph library, beyond
-- which it raises, where a task takes at most twelve. In the routing, agents, the router of the
-- goal runner and routing weights are arguments, confidences are whole millionths, an average is
-- a fraction and not rounded, and the graph library's check of the state against its types is
-- that of the answer of an agent, which raises `value_error`; what pydantic reads as a float
-- (`float_of`) and the text of the AttributeError of an answer that is not a dict (`no_get`) are
-- parameters of no assumption.
--
-- Not modelled: dates beyond the year 9999, rounding of floats in a delay, the text of `json.dumps`
-- (a value with its keys in order stands for it), the DDL of the migrations, the PostgreSQL twins,
-- the steps of `route` around its graph, `assignment_reason`, the object storage behind the
-- artifacts and their `diff`, and the parts of the repository that are I/O, models of language or
-- user interface.
pub mod Prelude
pub mod Contracts
pub mod Jobs
pub mod Goals
pub mod Policy
pub mod Completion
pub mod Agents
pub mod Security
pub mod Llm
mod Tests
