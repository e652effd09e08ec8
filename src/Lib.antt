-- ===== src/Lib.antt =====
-- HelixMemory, a memory engine in Go that combines several memory systems (Mem0, Cognee, Letta,
-- Graphiti): its core, modelled and verified.
--
-- The parts and their files.
--
-- - Types.antt and its children: pkg/types/types.go. Entries, requests and results are records with
--   the source's fields; `MemoryType` and `MemorySource` are texts, as in the source, so that every
--   text that the code can meet is covered. Types/Provider.antt is the interface MemoryProvider,
--   through which the engine sees a memory system: operations over a state of the system's own.
-- - CircuitBreaker.antt: pkg/types/circuit_breaker.go. Each method is a function to the new record;
--   `step` and `run` put the calls in the order in which they take the mutex. The children prove
--   the invariant, when the breaker trips, and how it recovers.
-- - Fusion/Router.antt: pkg/fusion/router.go, which chooses the systems for a write or a read of the
--   fusion engine.
-- - Fusion/Scoring.antt, Fusion/Dedup.antt, Fusion/Fuse.antt and Fusion/Merge.antt:
--   pkg/fusion/consolidator.go, the score of an entry, the removal of duplicates, FuseResults and
--   MergeSimilar. FuseResults calls the first two.
-- - Fusion/Engine.antt: pkg/fusion/engine.go, which calls the router, the clients and FuseResults.
--   Fusion/Engine/Agents.antt has its calls for a user, an agent or the knowledge graph, and
--   Fusion/Engine/Combine.antt its Fuse, which the unified provider calls.
-- - Routing.antt: pkg/routing/router.go, the classification of content and the routes of the unified
--   provider.
-- - Provider.antt and Provider/Search.antt, Provider/History.antt: pkg/provider/unified.go, the
--   provider over all registered systems; it calls the routing router and Fuse.
--   Provider/Delegates.antt has its calls of one system's further interfaces. Provider/Slots.antt
--   and Provider/Gathering.antt follow the goroutines of Search.
-- - Consolidation.antt: pkg/consolidation/consolidation.go, the sleep-time engine: one pass over the
--   systems' histories, and the calls that start and stop its loop. Consolidation/Looping.antt is the
--   loop as goroutines, a step relation over the loops that run.
-- - Mesh.antt: pkg/features/mesh/mesh.go, the memories that agents share within a scope.
-- - Provider/Adapter.antt: pkg/provider/adapter.go, the unified provider as a memory store, and the
--   conversions between the store's memories and entries.
-- - ContextWindow.antt: pkg/features/context_window/context.go, memories packed into a token budget.
-- - Snapshots.antt: pkg/features/snapshots/snapshots.go, snapshots of the memory and their comparison.
-- - Temporal.antt: pkg/features/temporal/temporal.go, what was true at an instant, and what changed.
-- - Clients.antt and its children Mem0, Graphiti, Cognee and Letta: pkg/clients, the HTTP clients of
--   the four systems. Clients.antt has the call that they share (ask the breaker, send a request,
--   report the outcome to the breaker) over the record `Http` of the outside; each child has the
--   client's structs (Wire), conversions (Entries), operations, further calls (Admin), and the client
--   as a `MemoryProvider`, as which the other parts see it. Refusal and its children follow a
--   call while the breaker is open, Tripping and Trips while the server is down.
-- - Config.antt: pkg/config/config.go, the configuration and what it calls active. Config/Environment
--   and Config/Loading read it from the environment, Config/Services proves what Validate accepts.
--   Fusion/Engine/Setup.antt makes an engine, Clients/Setup.antt a client, from a configuration.
-- - LocalStore.antt: pkg/localstore/sqlite_store.go, the store in a local database. The
--   statements that it sends are operations of a database, which is a parameter; `IsTable` says what
--   a theorem relies on, and the SET list of the source is `on_conflict`. LocalStore/Rows has the row that a memory becomes, LocalStore/Opening the
--   start.
-- - Bridge.antt: pkg/features/mcp_bridge/bridge.go, the provider as a set of tools, listed by
--   Bridge/Schema.antt.
-- - Quality.antt, Confidence.antt, Procedural.antt and Transfer.antt: the packages quality_loop,
--   confidence, procedural and cross_project of pkg/features: the report over all entries, the score
--   of an entry, learned procedures with their outcomes, and the transfer between projects.
-- - CodebaseDna.antt (with the detectors in CodebaseDna/Detect.antt), DebateMemory.antt and
--   CodeGen.antt: the packages codebase_dna, debate_memory and codegen of pkg/features.
-- - I18n.antt: pkg/i18n, the tables of messages and the locales to try.
-- - Infra.antt: pkg/infra, the services that docker compose starts and the wait for their health.
-- - Runtime.antt: what the program takes from Go and its standard library, as parameters. The laws
--   that a theorem needs are records that it takes as hypotheses: `IsGo` (a range loop visits each
--   entry of a map once, goroutines take effect in some order, sort.Slice permutes and sorts),
--   `IsStrictWeak` and `IsFloatOrder` (comparison of float64 values other than NaN). Further laws stand
--   beside what they are about: `SortsStably` (sort.SliceStable), `IsTable` (the database) and
--   `Answers` (a system's Search gives a result or an error, never neither).
-- - Samples.antt: instances of these parameters, and the theorems at concrete inputs.
-- - Prelude.antt: shared tests, lists, dictionaries and predicates over lists.
--
-- The representation.
--
-- - A map is an association list; where the code ranges over a map, the order is a parameter, so a
--   theorem holds for every order. A map that may be nil is an Option.
-- - An instant is a number of nanoseconds and a duration an integer of them. Every reading of the
--   clock is an argument.
-- - A pointer to an entry is the entry. The code that is modelled writes through such a pointer only
--   to entries that it returns, and those come back. Mesh.antt also returns the entries whose
--   metadata map a transfer shares.
-- - Counters of events (failures, list lengths) are unbounded numbers, and the durations of
--   Quality.antt wrap around at 64 bits; limits and thresholds that the caller chooses are integers, with what the code does for those that are not positive.
-- - All loops are over finite collections, by recursion on them. The sorting loop of
--   Provider/History.antt counts the entries that are left, and starts from their number.
--
-- Not modelled: logging, the text of error messages beyond a name, the transport under HTTP, the
-- encoding of JSON, contexts and their cancellation inside a call, the database under the local
-- store, the metrics (pkg/metrics, counters of a library), and the challenge runner
-- (challenges/runner), a command that tries the router, the fusion, the breaker and the translator on fixtures.
pub mod Prelude
pub mod Runtime
pub mod Types
pub mod CircuitBreaker
pub mod Fusion
pub mod Routing
pub mod Provider
pub mod Consolidation
pub mod Mesh
pub mod Clients
pub mod ContextWindow
pub mod Snapshots
pub mod Temporal
pub mod Config
pub mod I18n
pub mod Quality
pub mod Confidence
pub mod Procedural
pub mod Transfer
pub mod Bridge
pub mod Infra
pub mod CodebaseDna
pub mod DebateMemory
pub mod CodeGen
pub mod LocalStore
mod Samples
