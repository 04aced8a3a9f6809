-- ===== src/Lib.antt =====
-- Athena Console is a control plane for agent work: templates of workflows are turned into runs, the steps
-- of a run are executed and retried, work of a session waits in a queue, and locks keep processes apart.
-- This library models its core in packages/core/src.
--
-- Workflow.Template (packages/core/src/control-plane/workflow-template-dag.ts): validateWorkflowTemplateDag
-- and its parts in the file itself, buildWorkflowTemplateDag and parseWorkflowTemplateDag in
-- Workflow.Template.Order. A task is a value of any kind (Json.Value), since the source checks it at run
-- time. The proofs are in Search, Cycle, Reported and Checks (the search for a cycle), Tables, Loop and Kahn
-- (the order), Declared (the dependencies that the template lists) and Parse (all together).
-- Workflow.Runs (packages/core/src/control-plane/app-state/workflow-state-repository.ts): the tables, and
-- their reads in the file itself; updateRun, updateStep, startAttempt, finishAttempt and appendEvent in
-- Repository, create in Create, list and listForTemplate in Listing. View says what the writes do to one
-- run: its record, and its steps by their ids.
-- Workflow.State (packages/core/src/control-plane/services/workflow-state.ts): recomputeReadiness,
-- startStep, completeStep and finalizeRun in the file itself, failStep, cancelStep and
-- recoverStaleRunningSteps in Failure, resumeFromFirstFailedStep and collectDescendantStepIds in Resume,
-- createRun and extractTemplateTasks in Launch. The proofs are in Readiness, Moves, Steps, Ends,
-- Descendants, Recovery, Resumed and Created. Each method is a function from the tables to new tables and a
-- snapshot, or to an error; since the source runs each in a transaction, an error leaves no trace.
-- Workflow.Retry (packages/core/src/control-plane/services/workflow-retry-policy.ts) with Backoff, and
-- Workflow.Executor (packages/core/src/control-plane/services/workflow-dag-executor.ts, of which
-- evaluateRetryDecision, classifyRetryFailurePhase and selectNextReadyStep) with Decision. Its child Failure
-- has what follows a task that did not complete, with Retried, and Loop has executeInternal and
-- resumeInternal, with Progress and Ends; Guard has withRunGuard; runTask of the task workbench is a
-- parameter with a kind of states in which it can run the tasks (it throws for a task that is not ready or
-- has no agent), and what is slept is a list of delays. An error of the loop says nothing of the state that
-- it leaves.
-- Work (packages/core/src/work/index.ts): the queue files and enqueue in the file itself with Enqueue, drain
-- in Work.Drain with Batches, Served and Whole. SessionId is the test of session ids of
-- packages/core/src/runtime/session-store.ts. The handler of a drain is a parameter: a function from what it
-- acts on and a batch to what it has made of it and whether it has thrown.
-- DistributedLock (packages/core/src/control-plane/distributed-lock/types.ts): the requests and answers in
-- the file itself. DistributedLock.Contract has IDistributedLock as a record of operations, the table of the
-- holders that its callers rely on, and runs of calls on both; its Refinement says when a lock keeps the
-- contract. DistributedLock.LocalMemory (packages/core/src/control-plane/distributed-lock/local-memory.ts)
-- with Exclusion, DistributedLock.Redis (packages/core/src/control-plane/distributed-lock/redis.ts) with
-- Server, and DistributedLock.LocalFile (packages/core/src/control-plane/distributed-lock/local-file.ts) are
-- its implementations, each with a child Contract.
-- Cancellation (packages/core/src/runtime/cancellation.ts, with the records of
-- packages/core/src/shared/contracts/run.ts): the rows in the file itself, the operations of
-- RuntimeCancellationStore in Store with Requests and ByRun, cursors and single pages in Paging with
-- Cursors, the order of the rows and the two listings in Listing with Sorted, Pages and Complete.
-- Schedule (packages/core/src/schedule/index.ts): listing, removing and upserting of tasks in the file
-- itself with Tasks and its child Removal, runTask, runDue and readLogs in Runs with Ends and Due.
-- Tasks (packages/core/src/control-plane/app-state/domain-repositories/tasks.ts): the writes to the tasks in
-- the file itself with Rows, findByWorkflowDagStep and list in Reads.
-- Rbac (packages/core/src/control-plane/rbac.ts) with Permissions.
-- Prelude has what the others share: Boolean tests, lists, texts as keys, sets as lists, and the results of
-- calls that throw; Prelude.Maybe has do blocks for results that may be absent. Json has the values that the
-- source calls unknown, and Text has String.prototype.trim and Number.parseInt. Examples runs the code on
-- small inputs.
--
-- The parts meet in the tables: a run is created from the parsed template, whose order and dependencies
-- become its steps, the state service moves them, and the executor chooses among them by the readiness it
-- keeps.
--
-- Conventions. A time is a natural number of milliseconds within the range of Date (a lease that ends beyond
-- it is not asked for, since there toISOString throws), a limit is within the range of setTimeout and its
-- timer fires on time, the server of a lock has the clock of its client, and a time is an argument; what the
-- source draws at random is an argument or left out. A Map or an object with texts for keys is a function or
-- an association list. The order of texts is that of their code points. A table is the list of its rows in
-- the order of row ids, with the primary and foreign keys that its statements rely on. What the source calls
-- outside of it is a parameter, with what is documented of it as a hypothesis: the Redis server and its
-- client (Documented), the JSON text of an owner and a token (Readable), the digest, dates and signals of
-- the machine (Sound), the run of a task (Completes), base64url and JSON (Restores), localeCompare
-- (IsTotal), and the handlers of a drain and of a schedule.
--
-- Fuel. visit has one more than there are tasks, since no task is on a path twice. take_ready has as much as
-- there are tasks, since each is taken once. collect has (n + 1) * (n + 1) for n entries: each step is
-- entered once and puts n into the queue at most. follow has one more than there are rows, since each page
-- that has a next shows one row at least. drain_loop has as much as there are items, since each batch has
-- one at least. execute_loop has a turn more than there are steps where each turn completes one.
--
-- Not modelled: the task workbench, file and network access, JSON texts, the session lock itself (a call on
-- the queue, the schedules or a lock file is modelled from where it holds it to where it gives it back), the
-- locks on Kubernetes leases, the timer of a watched cancellation, the dead letter queue, authorization, the
-- HTTP API, plugins, providers and the user interface.
pub mod Prelude
pub mod Json
pub mod Text
pub mod SessionId
pub mod Workflow
pub mod Tasks
pub mod Cancellation
pub mod Schedule
pub mod Work
pub mod DistributedLock
pub mod Rbac
pub mod Examples
