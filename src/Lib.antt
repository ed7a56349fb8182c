-- ===== src/Lib.antt =====
-- The state machines of packages/core/src: what decides whether an agent's capability request may go
-- on, under which session, and at what standing of the compartment and of the agent behind it.
--
-- A request of an agent names a compartment, a tool and a risk level. The capability graph judges the
-- path of tools of the compartment, the rate limiter counts requests in sliding windows, the approval
-- queue holds what a human has to approve, the session manager binds a compartment to one session at
-- a time, the trust engine keeps the standing of compartments, the defense engine turns anomalies and
-- incidents into actions, and the multi-agent runtime schedules and isolates agents. The firewall
-- allows a request by the policy stored for its agent and compartment and sanitizes its input, the
-- privacy boundary judges flows between compartments, the transport policy routes an execution to a
-- transport that the registry lets run in its sandbox, the orchestrator merges the signals of these
-- gates into one decision, and the audit trail keeps the newest events. The server calls the
-- components in turn; only the agents' managers share state, their registry.
--
--   Base         shared names, tests into Bool, lists, JavaScript's Map, integers, results
--   Vocabulary   index.ts, execution/types.ts: tools, risk levels, transports
--   Approval     approval-queue/queue.ts, types.ts: create, approve and reject (`finalize`), getById,
--                listPending, expireOldRequests
--   Session      session-manager/manager.ts, types.ts: registerCompartment, getOrCreateSession,
--                rotateSession, revokeSession, recordUse, expireOldSessions, listSessions
--   RateLimiter  adaptive-defense/rate-limiter.ts, types.ts: evaluate, policies, temporary blocks
--   Defense      adaptive-defense/defense-engine.ts, types.ts: evaluate, escalateRisk
--   Graph        capability-graph/engine.ts, types.ts: Types and Store hold nodes, edges, rules and
--                policies, Evaluate is evaluatePath, Record is recordTransition,
--                recordCapabilityRequest and the lists
--   Trust        trust-reputation/engine.ts, types.ts, bootstrap.ts: recordEvent, applyDecay
--   Agents       multi-agent: Registry is registry.ts, Quotas quotas.ts, Isolation isolation.ts,
--                Scheduler scheduler.ts, and Runtime the calls of the first three as steps;
--                Leases is leases.ts
--   Firewall     sanitizer/index.ts (Sanitizer), policy-engine and capability-firewall (Policy)
--   Boundary     privacy-boundary/engine.ts, types.ts: registerRule, evaluate, clearRules
--   Transports   transport-policy/engine.ts (Policy), transport-registry/registry.ts (Registry)
--   Temporal     temporal-obfuscation: Budget is budget.ts, Burst burst.ts
--   Audit        audit/store.ts, engine.ts (Store), types.ts: emit, append, list, getById, clear
--   Orchestrator runtime-orchestrator: Conflicts is conflicts.ts, Merge the merge strategies, State
--                orchestrator.ts, signals.ts and collector.ts
--
-- In each component the class is a record with the fields of the class, and a method `aMethod` is the
-- function `a_method` that takes the state and returns the new one with its result. The modules below
-- a component are its proofs, and Tests its concrete runs.
--
-- Conventions. The clock is read once for each call and is the argument `now`; in the approval
-- queue, the session manager, the registry and the leases the code may read it several times in one
-- call. Ids and tokens drawn from node:crypto are arguments, with the hypothesis that an id is not
-- in use where that matters (`AllFresh`, for leases `AllNewIds`). Times, counts and scores are
-- natural numbers of milliseconds or units without a bound, and a score delta is an integer; the
-- double arithmetic of JavaScript is exact on them below 2^53. A `Map` is an association list in
-- the order of insertion. An optional field is an `Option`. Texts of reasons are kept as data
-- constructors over what they interpolate. A method that throws returns an error with the state
-- that it leaves. Defensive copies are values. Every loop is structural recursion, so no fuel is
-- used.
--
-- The firewall's texts are lists of UTF-16 code units, and its objects have own entries and a
-- prototype, which an assignment to `__proto__` sets. `encodeURIComponent` and the size of what
-- `JSON.stringify` returns are arguments: the second rests on how doubles are printed, and nothing
-- but whether the first has a result is asked of it. Sets and maps keep their members in lists. The
-- sort of arrays, which is stable, is an insertion sort.
--
-- Not modelled: of packages/core/src the behavioral privacy, persona and network isolation, the
-- rest of temporal obfuscation, transports and their fingerprints, runtime configuration and
-- security; the other packages and the apps, which are input and output around the core. Methods
-- that only copy state out are left out of some components.
pub mod Base
pub mod Vocabulary
pub mod Approval
pub mod Session
pub mod RateLimiter
pub mod Defense
pub mod Graph
pub mod Trust
pub mod Agents
pub mod Firewall
pub mod Boundary
pub mod Transports
pub mod Temporal
pub mod Audit
pub mod Orchestrator
