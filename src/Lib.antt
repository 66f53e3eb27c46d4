-- ===== src/Lib.antt =====
-- A verification library for Mini AI Cloud, the control plane that schedules AI tasks on GPU and
-- NPU workers and serves models. It covers the decisions that the control plane makes and the
-- rows that its transactions change; the processes that carry the decisions out (worker/, the
-- Kubernetes controllers of api/services/, cli/, scripts/) are outside it.
--
-- How the parts interact. A task is created under the quota of its project
-- (repositories/quotas.py) and moves along the graph of statuses of core/state_machine.py. The
-- scheduler takes a snapshot of the workers and chooses one of them (scheduler/policies.py); an
-- accelerator request is first matched against capacity pools of the two vendors
-- (scheduler/admission.py), and a serving replica is placed as a gang on one worker
-- (scheduler/serving.py). The worker that holds the execution reports on it and renews its lease
-- behind the fence of repositories/tasks.py; repositories/dag.py says when the dependencies of a
-- task are met, and repositories/reservations.py keeps the devices that an execution is seen to
-- hold, and gives back what it held and enters its use once it ends. What a transaction has to
-- tell other services goes through the queue of repositories/outbox.py. The services are scaled
-- by api/services/autoscaler.py, from the counts of open requests that api/services/gateway.py
-- keeps, within the commitments that the quota records. Who may do what is decided by
-- core/rbac.py.
--
-- Files. Core/ stands for core/: Core/Enums for core/enums.py, Core/StateMachine for
-- core/state_machine.py (with Runs, histories of statuses), Core/Rbac for core/rbac.py (with
-- Authority). Scheduler/ stands for scheduler/: Policies for policies.py (Snapshots:
-- `evaluate_snapshot`; Placements: `choose_placement`; Priority: `effective_priority`; Precheck:
-- `evaluate`), Serving for serving.py, Admission for admission.py (Model: the value objects and
-- their `__post_init__`; Choose: the filters and `choose_admission`; Reasons: the table of
-- reasons). Repositories/ stands for repositories/: Quotas for quotas.py (Model, Operations,
-- Commitments, Fit: the methods of `QuotaRepository`; Artifacts: what artifacts.py writes to the
-- same counters), Tasks for tasks.py (Model: `_transition`; Lifecycle: `_owned_task` and the
-- reports of progress; Cancel: `cancel` and `release_due_retries`; Retry: `retry_delay_seconds`;
-- Ending, Conclude and Finish: `finish_execution`; Recover: `recover_expired` on one task), Dag
-- for dag.py and for the decision of `resolve_dependency_readiness` (Cycle: `_contains_cycle`;
-- Adding: `_add_dependencies_locked`, `add_dependency` and the dependencies of `create_queued` of
-- tasks.py; Summary: `_summarize_loaded_group`), Reservations for reservations.py (Observation:
-- `record_observed_allocation`; Settlement: `release_and_settle`), Outbox for outbox.py (Events:
-- the operations; a `Call` is a transaction of a consumer). Services/Autoscaler stands for
-- api/services/autoscaler.py, Services/Gateway for `GatewayMetrics` of api/services/gateway.py.
-- The other modules below these hold proofs and are named for what they prove; each component has
-- a module Examples with runs at concrete inputs. Prelude/ holds lists, results, sorting, texts,
-- integers and the interface of floating-point numbers.
--
-- How code is translated. A function of the source has the name that it has there, less a leading
-- underscore; a record has the columns or fields that the code reads or writes. A raised
-- exception is `err` with a constructor for each message that the code tells apart; a transaction
-- that raises leaves its rows as they were. A method on database rows takes the rows of one
-- project or one task and returns those that it leaves: the row locks of the source make its
-- transactions on them sequential, so that an interleaving is a sequence of steps (`Step` and
-- `Steps` of Quotas/Reach and Tasks/Reach), between which the clock moves at will. The queue of
-- events is a list of rows; a row that another transaction has locked, which SKIP LOCKED passes
-- over, is one that a test of its ID picks out. Arguments that the code tests for being negative
-- are integers; counters and limits are natural numbers, as the constraints of their tables have
-- it. Costs are whole numbers of the unit 10^-8 of their columns, times whole microseconds. UUIDs
-- are numbers, whose order is that of their texts. A sort is an insertion sort, stable as
-- Python's is. Every loop goes down a list, but for the `while` of `_contains_cycle`, which runs
-- on fuel: it visits no node twice, so the number of the keys is enough, and the theorem on it
-- says that it returns.
--
-- Assumptions. Floating-point numbers are an interface (Prelude/Floats): a comparison is assumed
-- to be total and transitive, as it is without a NaN, and nothing about rounding; the delays of
-- retries are exact, as those of floats are while a product has at most 53 bits. Texts are
-- compared by code points, as Python does, and a text is blank when it has no character but those
-- that `str.strip` removes.
--
-- Not modelled. `claim` of repositories/tasks.py, and the transfer of executions between workers;
-- the repositories of admission, services, usage and diagnostics, the addition of an event to the
-- queue on its own, the routes of the gateway, and the simulator. HTTP routes and schemas,
-- configuration, migrations and the runtimes of the workers are input and output.
pub mod Prelude
pub mod Core
pub mod Scheduler
pub mod Repositories
pub mod Services
