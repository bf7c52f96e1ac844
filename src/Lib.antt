-- ===== src/Lib.antt =====
-- pi-smart-router: the routing core of a model router for coding agents. A session is pinned to a model
-- so that its provider's prompt cache stays warm; guards decide when a pin holds, breaks, escalates or
-- is sub-routed; a gate keeps requests off models whose window is too small; a circuit breaker keeps
-- them off failing endpoints; a write queue batches what is persisted.
--
-- Types            src/domain/types/entities.ts: the records that are passed around
-- Gateway.CircuitBreaker  src/infrastructure/gateway/circuit-breaker.ts: CircuitBreaker. Transitions has
--                  the state machine as a relation, Invariant the coherence of the counters, Recovery
--                  the runs of failures and successes, Asked the stability of its answers
-- Gateway.Selection, Gateway.Dispatch
--                  src/infrastructure/gateway/gateway-dispatch.ts: weightedSelect and the filters that ask
--                  the breaker; GatewayDispatch with its failover, cache markers and outcomes;
--                  Outcome.Recorded has what several recorded outcomes add up to
-- Persistence      src/domain/types/store-port.ts as an interface with laws (StorePort),
--                  src/infrastructure/persistence/memory-store.ts that implements it (MemoryStore; Agrees
--                  and Listed have its histories), the retention of src/infrastructure/telemetry
--                  (telemetry-limits.ts, dataset-limits.ts, outcome-limits.ts, in History), and
--                  src/infrastructure/persistence/write-queue.ts (WriteQueue: Contents, Bounds, Totals)
--                  and sqlite-store.ts beside it (SqliteStore: Rows, Queued, Reads, Retention),
--                  whose pins keep their creation time when they are put again, which the law of
--                  StorePort leaves out;
--                  TokenBucket has its rate limits
-- Pinning.FlipFlop src/domain/pinning/flip-flop-guard.ts: FlipFlopGuard, one observation in Steps
-- Pinning.Saar     src/domain/pinning/saar-session-state.ts: SaarSessionStateTracker
-- Pinning.Economics  src/domain/pinning/cache-breakeven.ts, cache-economics.ts, and the two switch
--                  functions at the top of session-pinner.ts
-- Pinning.Pinner   src/domain/pinning/session-pinner.ts: SessionPinner. The state and its writes stand in
--                  Pinner, the rules in Rules and its child Turns, lookupPin in Lookup; State relates
--                  memory and store, Settled, Outcome and Routed a lookup's result and the pin, and
--                  Honoured what the override force_model_id makes of it
-- Pinning.SubRoute src/domain/pinning/sub-route-policy.ts: selectLowestCostModel, evaluateSubRoutePolicy
-- Pinning.ToolFailure, Pinning.LoopEscalation
--                  src/domain/pinning/tool-failure.ts, loop-escalation.ts, and the loop_escalation stage of
--                  src/domain/pipeline/session-pin-stage.ts, which loads, breaks and records pins;
--                  Verdict is about the evaluation, Rules about one run, Streak about several
-- Routing.ContextFit  src/domain/routing/context-fit.ts: the gate and the overflow fallback
-- Routing.Isotonic src/domain/routing/isotonic-calibrator.ts: the lookup of a calibrated score. Search has
--                  its binary search, Lookup what the calibrator returns
-- Routing.Prewarm  src/domain/routing/speculative-prewarm.ts: SpeculativePrewarmGuard. Window has its
--                  rolling window, Guard the histories of attempts, Trips when a session is disabled
-- Routing.Degraded src/domain/routing/degraded-route-sandwich.ts and the learned routes it reads; Resolved and
--                  Learned have what its answers rest on and what the store learns
-- Pipeline         src/domain/pipeline: the context (pipeline-stage.ts) and the helpers
--                  (stage-helpers.ts, and ToolUse its tool-use ceilings); Classify is
--                  src/domain/triage/turn-envelope.ts, SafeDefault and Overflow the fallback stages,
--                  TurnEnvelope, SessionPinStage, Triage, HydraMatch and LocalZero the stages of those
--                  names, Router the orchestrator router-pipeline.ts: Stages has its list of stages, Pins
--                  its writes of pins, Answer and Whole a route from its start to its decision
-- Prelude          tests, lists, tables, signed numbers and text search that the parts share
-- Examples         tests and the theorems at concrete inputs
--
-- The pinner owns a flip-flop guard and a SAAR tracker for each session, asks both economics gates
-- before it breaks or sub-routes a pin, and writes each pin through to the store of the port. The
-- escalation stage reads and writes pins through the pinner. A route runs the stages in order over one
-- context until a stage decides; its catch clause and its end fall back to the overflow escalation or the
-- safe default, and the decision is written to the pinner. The gateway asks the circuit breaker about the
-- decision of a route and fails over where the circuit is open.
--
-- Conventions. A method takes the state and returns the new one. Date.now() and new Date() are an
-- argument `now` in milliseconds; a call reads the clock once. A Map is an association list with the
-- laws of get, set and delete. A missing optional field is `none`; a name that is compared only is a
-- String, a text that is searched a list of UTF-16 code units. The price fields are whole micro-USD per
-- million tokens, a margin or a rate is in thousandths, an amount in the gates is a whole number of
-- 10^-18 USD, so sums and products are exact where the program rounds in floating point: where two
-- amounts of a breakeven gate are equal, the program can decide otherwise than the model. NaN and
-- infinities have no counterpart. A callback that may throw, as the cost estimator and the telemetry,
-- is a function that says where it does. There is no fuel: every loop runs over a list, but for the binary search of
-- Routing.Isotonic, which recurses on the knots between its bounds. The hash of a tool
-- failure wraps at 2^32.
--
-- Not modelled: the stages typed_judgment and low_intensity, which are arguments of the pipeline; the
-- triage engine, matching and scoring, whose results are parameters, as are the deadline of the matching
-- stage, the pings and the meter of the local stage and the compiled pattern packs;
-- the feature sidecar of a decision; the SQLite engine and, of its store, the lists
-- and the columns of telemetry, dataset and outcome rows, the price catalog and the migrations;
-- pricing with a price catalog or a quota window; delegation and judgment; and the API, the command
-- line, the configuration and the probes, which are input and output. The promises of a store write
-- are taken as settled at once. Regular expressions, trim and toLowerCase belong to the platform and
-- are parameters. route() runs one call at a time, so an exclusive route is the unit, with a clock
-- reading for each stage.
pub mod Prelude
pub mod Types
pub mod Gateway
pub mod Persistence
pub mod Pinning
pub mod Routing
pub mod Pipeline
pub mod Examples
