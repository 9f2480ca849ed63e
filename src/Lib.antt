-- ===== src/Lib.antt =====
-- Seqlane is a typed workflow runtime: a plan is a graph of task nodes, and every invocation of a
-- task asks for the workspace it works in and for the executor session it talks to before it runs.
--
-- The development models how a plan is validated and ordered before it runs, how invocations are
-- admitted, how the bindings by which nodes pass results on are resolved, and how the events of an
-- attempt are reported.
--
-- WorkspaceLock: libs/runtime/src/runtime/workspace/workspace-lock.ts. `WorkspaceLockRegistry` is
--   a record with the map from workspace keys to lock states, a store of the states (leases keep a
--   reference to theirs after the map forgot it), the leases and the settled promises. `acquire`,
--   `try_acquire`, `is_available`, `blocking_invocation_id`, `wait_for_change` and `release` are the
--   methods; `Machine.run` is the registry after a history of calls. `State` has the data, `Admit`
--   the entry points, `Release` the release and the grant of waiting requests. `Held`, `Tally`,
--   `Booked`, `Admitted`, `Acquired`, `Granted` and `Sound` have lemmas on the books of a state and
--   its leases.
-- SessionLock: libs/runtime/src/runtime/session/session-lock.ts, in the same form, with quarantine
--   and the abort listener of a waiting request.
-- JointAdmission: libs/runtime/src/runtime/invocation/joint-admission.ts. It holds the two
--   registries above, as the source's object does, and calls their methods. The loop of `#process`
--   runs on the queue of its workspace, so it needs no fuel: each round drops the head or pauses.
--   A paused loop holds the promises of its `Promise.race`, of which the two lock registries know
--   theirs, and goes on once one of them is resolved. `Machine` mixes its calls, abort events and
--   the turns of paused loops with calls of other clients of the two lock registries. `Attempt` has
--   `#tryAcquire`, `Registry` the queues and the loop.
-- Binding: libs/runtime/src/runtime/plan/binding-resolution.ts and the functions of
--   libs/core/src/bindings.ts on bindings. `Json` has JSON values and undefined as two mutual lists
--   and the test of `valueRefSchema`; `Resolve` the resolution and the collected node ids;
--   `Serialize` the serial form and the collected dependencies. They recur on the value, so they
--   need no fuel. `References` is the independent list of a binding's references.
-- Transitions: libs/opencode/src/attempt-transitions.ts. A dispatcher is a record of its maps, its
--   set of closed identities and the logs of what it passed to `onObservation` and `onActivity`.
--   `Dispatch` has its two entry points, and `run` the dispatcher after a list of events.
-- In Plan stand the nodes of libs/core/src/plan-types.ts, with
--   libs/runtime/src/runtime/session/session-ordering.ts in `SessionOrdering` and
--   libs/runtime/src/runtime/plan/agent-work.ts in `AgentWork`.
-- Validation: `validateParsedPlan` of libs/runtime/src/runtime/validation/plan-validation.ts, for
--   plans that satisfy the schema of libs/core/src/plan-types.ts. Each check returns the issues that
--   it adds, without their messages. `References`, `Nodes`, `Sessions`, `Choice`, `Repeat` and
--   `Cycle` are its parts, and `Plan` puts them together. `resolve` and `visit` run on fuel, which
--   is above the number of nodes: each deeper call enters a node that was not entered yet.
-- PlanOrdering: libs/runtime/src/runtime/plan/plan-ordering.ts. `Order` has the tables, the queue of
--   ready nodes and the loop, and `Text` the order of node ids. The loop runs on fuel, two rounds for
--   each node and one more: a node is queued at the start, or once when its count becomes 0. The
--   other modules follow the loop: `Tables`, `Start`, `Release` and `Loop` have its invariant.
-- Constraints: libs/runtime/src/runtime/workspace/workspace-ordering.ts. `Search` is the search for a
--   path of dependencies, `Accesses` the accesses of the nodes, `Lowering` the edges between nodes
--   whose accesses conflict, `Cycle` the final test for cycles, and `Lower` puts them together. The
--   search runs on fuel, two rounds more than the map has entries: each round pops a node, and the
--   entries of a node are pushed once. The test for cycles has the fuel of PlanOrdering.
-- SharedSession: libs/runtime/src/runtime/session/shared-session-order.ts, all in `Preflight`. The
--   search for a path has the fuel of that in Constraints, to which `Paths` relates it.
-- NodeMap: libs/tui/src/run-node-map.ts. A `Map` or a chain of overlays with their cached depth and
--   size is a value of `NodeMap` in `Overlay`; `Refined` relates it to a function from keys to values.
-- Prelude: helpers on Booleans, lists, String-keyed maps in insertion order, the stable sort by
--   rank, and decimal notation.
--
-- JavaScript runs one call to its end before the next one starts, so a history is a list of calls.
-- A promise is a number, and what settles it is an entry of a log. Ordinals are natural numbers
-- below the greatest safe integer, which a missing ordinal stands for. Nothing is said about the
-- order in which the reactions to settled promises run. The abort reasons and causes are of any
-- type `C`. What `onWaiting` callbacks do is outside the model; the blocking invocation that they
-- are told is part of the answer of a call.
--
-- Lengths and indices of texts count characters, which are the units of JavaScript in the basic
-- multilingual plane.
--
-- Not modelled: the executor adapters (libs/acp, libs/codex, and libs/opencode but for Transitions),
-- the command line, the terminal views but for NodeMap, the actions, and the compilers to the
-- workflow engine, which are I/O around third-party services; the schemas of a third-party
-- validation library, which the plans of the model satisfy; and, of the runtime itself, the
-- resolution of sessions during a run, the retries and the builder of workflows.
pub mod Prelude
pub mod WorkspaceLock
pub mod SessionLock
pub mod JointAdmission
pub mod Binding
pub mod Transitions
pub mod Plan
pub mod Constraints
pub mod Validation
pub mod PlanOrdering
pub mod SharedSession
pub mod NodeMap
