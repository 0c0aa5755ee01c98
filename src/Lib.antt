-- ===== src/Lib.antt =====
-- A verification library of the Kova models repository: the route policy and the selections of an
-- application, the planners of Core and Ultra requests, the execution snapshot and its journal, and
-- the weekly ledger of work units.
--
-- The parts and how they interact. A request names a surface, a family and an effort;
-- router/policy.py resolves it to a server-controlled policy, and router/auto.py chooses a mode for a
-- prompt; router/application.py resolves a versioned selection, or that choice, under the grant of the
-- server. core/adapter.py makes the plan of a Core request, one operation for each pass of its policy,
-- and binds the outputs of earlier stages into the messages of a later one; ultra/orchestrator.py
-- makes the plan of an Ultra request, ultra/conversation.py checks its history and ultra/binding.py
-- decides on its debate round. A plan with its limits becomes an immutable execution snapshot
-- (execution/contracts.py). The journal (execution/store.py) keeps
-- the job of a snapshot: a runner begins it and gets a fence (a token and an epoch), claims its
-- stages, streams public fragments, completes the stages and finishes the job, while the owner may
-- cancel it and a supervisor may recover it; execution/runner.py schedules the stages.
-- usage/work_week.py reserves work units for the job of a Work route before it is dispatched and
-- settles them by a receipt afterwards.
--
-- The files.
--   Common: Boolean tests, list operations, text formats, results and their laws.
--   Router: Routes and Entitlements (router/entitlements.py), Models (release/model_revisions.py,
--     core/current_candidates.py), Policy and Resolve (router/policy.py), Auto (router/auto.py),
--     Application (router/application.py); Selected and Roundtrip hold proofs on selections.
--   Contracts (execution/contracts.py): Grant is ExecutionGrant, Spec and Validate are
--     ExecutionLimits, Stage and ExecutionSpec with their checks, Admission is from_plan.
--   Core (core/adapter.py, core/identity.py): Messages has the messages, the trusted ones and the
--     placeholders, Request the policy and the stages of a request, Plan is build_core_plan, View what
--     a snapshot reads of a plan, Bind is bind_core_operation. Bounds, Resolved, Trusted, the modules
--     of Admit and those below Bind hold proofs.
--   Store (execution/store.py): State has the tables and what every operation reads; Stages has
--     claim, complete and fail_stage; Jobs has begin, request_cancel, finish, recover_abandoned and
--     the readings; Public has append_public_delta; Replay has replay; Journal has create and the transaction; Steps is
--     the step relation of all operations that change a job. Rows, Inversion, Budget, Fencing, Final,
--     Stale, Events, Sequence and Pages hold proofs.
--   Usage (usage/work_week.py): Ledger has the tables, the validation of rows and the totals;
--     Operations has configure_week, reserve_for_job, settle and snapshot. The others hold proofs.
--   Ultra (ultra/orchestrator.py): Specialists has the domains and the choice of specialists, Plan
--     the admission, the stages and the token budget, Request the request, the templates and the
--     whole of build_ultra_plan; Selection and Budget hold proofs. Conversation
--     (ultra/conversation.py) and Debate (ultra/binding.py) have their operations and proofs, Bind
--     (ultra/binding.py) is bind_ultra_operation, and Bound holds its proofs.
--   Runner (execution/runner.py): Rounds has the decision of a round of the scheduler, Outcomes how a
--     batch of stages ends, Pieces the pieces of a public fragment; Progress holds proofs.
--   Examples: concrete values, and the theorems applied to them.
--
-- How the code is read. An exception is an error of the result type, with its class and not its
-- message; a transaction that raises is one that gives no new state. The answers of callbacks, of
-- the clock and of uuid4 are arguments, one for each call. SHA-256 and the JSON encoding come from
-- the standard library: a snapshot carries its fingerprint, a stage result its digest and encoded
-- length. The stage timeout is counted in microseconds, dollars in micro-dollars. A route id is the
-- value that its text spells; ResolvedSelection.policy alone takes the text apart. What regular expressions and str.lower give is an argument. The
-- sanitizer of engine responses (worker/handler.py) is an argument of `complete`. Integers are
-- Python's, without a width; the bounds that the code checks are written out. A job holds the rows
-- of its stages, events and fragments; events and fragments stand newest first. Display names and
-- fixed metadata are left out. The texts of the behaviour instructions, the identity file (none where it
-- is missing or not the approved one) and the trusted token counter (0 for any value that is refused)
-- are arguments of the Core planner; a text that is searched is the list of its code points, and
-- str.title is the one of ASCII letters. The canonical bytes of a snapshot are an argument of
-- from_plan, by their digest and number; what json.loads gives is an argument of the debate gate.
--
-- Fuel: the rounds of the choice of specialists are counted down from the maximum and one more, and
-- have no result when they run out; every round but the last adds a specialist, so they are enough.
-- The pieces of a public fragment have a step for each of its characters, and every step takes at
-- least one of them.
--
-- Not modelled: the personalization context, the threads and clocks of the runner, the serving worker,
-- the release gates, the durable stores, evaluation and training, code of databases and scripts.
pub mod Common
pub mod Router
pub mod Contracts
pub mod Core
pub mod Store
pub mod Usage
pub mod Ultra
pub mod Runner
pub mod Examples
