-- ===== src/Lib.antt =====
-- A verification library of TraceIQ, a tracing bot that finds the root cause of incidents and proposes
-- guarded remediations.
--
-- The program. Spans enter by internal/ingest, internal/sampler assembles them to traces and keeps the
-- interesting ones, internal/anomaly and internal/topology watch them, internal/rca investigates an
-- incident with an LLM, and internal/remediate carries out the actions that an investigation
-- proposes, behind approvals, budgets and an audit log.
--
-- What is modelled.
-- - Remediate: internal/remediate. Types is internal/model/remediate.go with what is used of
--   internal/tenant, internal/auth and internal/k8s, and the errors of errors.go; Audit is audit.go;
--   Validate is validate.go; Executor is executor.go; Guard is guard.go: State has the struct `guard`,
--   its configuration, idempotency and budgets, and Propose, Approve, Execute, Settle and Queries have
--   its methods, each cut into the steps after its early returns.
--   Guard/Transitions says what one method does to the action that it names, Guard/Runs what any
--   calls do, Guard/Trail what the audit log then tells, and Guard/Idempotency what a repeated call
--   does.
--   Scenarios has concrete runs.
-- - Sampler: internal/sampler. Predicates is predicate.go, with the calls of impl.go on it; its children
--   say which predicate is evicted (Eviction), whose ids are whose (Owners), what any calls keep
--   (Bound, Runs) and what one call does (Effects). Assembly is Consume, Tick, FlushAll and finalize of
--   assembly.go with the journal of wal.go; its Runs are any calls, Isolation and Conservation what
--   they keep.
-- - Ingest: internal/ingest. Queue is queue.go; Interleaving has the steps of the goroutines that push
--   and of the one that drains, Delivery and Bounds what all interleavings keep, and Pushes says
--   which steps a push is.
--   Sampler/Scenarios and Ingest/Scenarios have concrete runs.
-- - Rca: internal/rca. Types is internal/model/rca.go with the arguments of rca.go and the errors of
--   errors.go; Tools is tools.go and validateToolArgs; Journal is journal.go, Budget budget.go and Interest
--   interest.go. Engine, Investigate and Replay are engine.go: Engine is one round of the loop of
--   `Investigate` cut at its early exits, Investigate what is before and after the loop with `Get`,
--   `Correct`, `Abort` and `Stats`, and Replay is `Replay` in both modes. The children of Engine say what
--   rounds keep (Bounds, Evidence, Trail) and that they end (Returns); those of Investigate and Replay
--   say it of whole investigations.
-- - Topology: internal/topology, whose types are topology.go and whose graph is livegraph.go. Graph is the
--   struct `LiveGraph` with its services and its channel of changes, Spans what is read of a
--   span with the histogram's Buckets, Evict is `evictIfNeeded`, Upsert `upsertEdge`, Consume `Consume`,
--   Sweep the two sweeps and `WarmStart`, and Neighbors the reads. Calls are the writing calls in any order; Bound, Sequence with its Numbered
--   tables and Coldest say what they keep and which edge is evicted, and Neighbors/Walks, Visits and Hops
--   what the search of `Neighbors` finds.
-- - Anomaly: internal/anomaly. Types is internal/model/anomaly.go; Grouper and Incidents are grouper.go: Grouper
--   has the struct `memGrouper`, fingerprints, severities and the index by service, and Incidents
--   `attachEvent`, `Add`, `Suppress`, `Tick` and `ActiveIncidents`. Their children say how many
--   incidents are open (Open, Bound), what attaching leaves alone (Attach) and what `Add` answers
--   (Added).
--   Rca/Scenarios, Topology/Scenarios and Anomaly/Scenarios have concrete runs.
-- - Prelude: shared names, Boolean tests, integers, floating-point numbers, association lists,
--   maps with keys of any type, and byte strings.
--
-- How state and effects are modelled. A mutex makes each method of the guard one step, so a method is
-- a function from the state to the state and its reply. The collaborators (policy store, resolver,
-- snapshotter, signal source, verifier, authorizer, executors, clock, the ids and hashes of the
-- standard library, JSON, SHA-256, path.Match) are the record `Deps`, an argument of each call, so
-- they may answer differently from one call to the next; each answers without error paths of its own
-- beyond the errors that the source handles. The ghost field `calls` of a guard collects the requests
-- that executors have received. Time is in nanoseconds after Go's zero time; int counters are natural
-- numbers and budgets integers, with no overflow; a sequence number of the audit log enters the hash
-- modulo 2^64. The hits of a predicate are a uint64 that wraps around. The atomic byte counter of a queue
-- is what was added to it and what was removed from it, so a check of it is a sum on each side.
-- The collaborators of an investigation (reasoner, tools, journal, object store, clock, JSON, SHA-256, a
-- concurrent Abort) are what a `Round` answers, one for each round. A float64 is its 64 bits, with the
-- comparisons of the source; the one product of floats, the grouper's, is a parameter. `range` over a map visits
-- an association list in its order, and what must not depend on the order is stated so.
-- Fuel: the decimal digits of a number are written with fuel, 20 for a uint64; the loop of `Investigate`
-- has 26 rounds, as a round that does not end it adds a step or swaps the reasoner; the loop of
-- `evictIfNeeded` has one round for each edge; the loop of `bucketIndex` has the 15 rounds that its own
-- test allows. All other recursion is on lists or on the number of hops.
--
-- Not modelled. Contexts and their cancellation; the details that an error carries behind its
-- sentinel; process start-up, HTTP handlers and the LLM clients. Of internal/ingest the receivers, limits and
-- normalizers, and of internal/sampler the keep policy with its token buckets, the RED accumulator, ReplayWAL,
-- SetRing and the conversion to a model.Trace, are left out: the policy's rates are floating point,
-- and it is a collaborator of finalize. Of internal/rca
-- the LLM and the rules reasoner, the schema of answers, the sanitizer and the report's text are
-- collaborators. Of internal/topology Distance, EdgeOps, Export, Flush, Stats and the ticker of Run
-- are left out, and an edge's resolution, which is a constant. Of internal/anomaly
-- the detectors, baselines and quantile sketches are floating point and left out. Of internal/memory,
-- internal/store, internal/config, internal/correlate, internal/nl, internal/api, internal/eval and
-- cmd/traceiq nothing is modelled.

mod Prelude
pub mod Remediate
pub mod Sampler
pub mod Ingest
pub mod Rca
pub mod Topology
pub mod Anomaly
