-- ===== src/Lib.antt =====
-- RationaleVault: an append-only ledger of the decisions of a project, and the state that is
-- replayed from it. This library models the parts that keep and rebuild that state.
--
-- The ledger (rationalevault/ledger). A client builds a commit of events of one experience
-- (`CommitBuilder`) and appends it to a ledger that gives each commit one global order and checks
-- that sequences follow on in their stream. There are two backends.
--   Ledger.antt                  canonical/types.py, canonical/envelope.py, ledger/commit.py, entry.py
--   Ledger/Build.antt            CommitBuilder.from_events
--   Ledger/Memory.antt           ledger/storage/memory.py; Memory/Streams and Memory/Append are its laws
--   Ledger/Sqlite.antt           ledger/storage/sqlite.py: the meaning of each query over the rows
--   Ledger/Refinement.antt       the SQLite backend against the in-memory one, over runs of commits
--
-- The replay of the ledger (rationalevault/replay). Registered projections are folded from the
-- entries of a ledger, all of them, those of a stream or those up to a boundary.
--   Replay.antt                  types.py, registry.py, engine/default.py; Replay/Boundary: its law
--
-- The event store (rationalevault/schema/events.py, rationalevault/db/sqlite_store.py). A table of
-- events, each with a sequence in the table and a version in its project.
--   Events.antt, Value.antt      event records; the JSON values of payloads
--   EventStore.antt              append_event and the reads; EventStore/Streams and Versions: its laws
--
-- The cognitive head (rationalevault/cognitive_head). Four reducers fold the stream of a project
-- into tasks, decisions, questions and the project's own fields; a head is compiled from these, and
-- a snapshot of the reducer state is stored, from which a later compilation may go on.
--   CognitiveHead/States.antt    the states of reducers.py, and the writes that reducers share
--   CognitiveHead/Tasks.antt     TaskReducer
--   CognitiveHead/Reducers.antt  the other three; Reducers/Mutation, Invariants, Independence: laws
--   CognitiveHead/Head.antt      _build_head: filters, sorts by priority, blockers
--   CognitiveHead/Payload.antt   snapshot_payload.py, and the dict conversions of replay_engine.py
--   CognitiveHead/Snapshot.antt  snapshot.py, snapshot_policy.py, the snapshot table
--   CognitiveHead/Engine.antt    ReplayEngine.build_projection, compile_cognitive_head; below it
--                                Snapshots, Restore, Delta and Fast hold the laws of each path
--
-- The schema policy (rationalevault/schema). A policy gives each event type its latest version and
-- a migration path; the resolver takes an event of another version along the path.
--   Schema.antt                  policy.py, upcaster.py, resolver.py; Schema/Resolution: its law
--   Governance.antt              projections/governance.py and the governance records of events.py;
--                                Governance/Record, Order, Verdict, Latest and Returns: its laws
--   Pipeline.antt                factory.py, and context.py, pipeline.py and service.py of
--                                projections/: the events of the store under the policy of a
--                                governance state; Pipeline/Versions and Compiled: its laws
--
-- The projections (rationalevault/projections, rationalevault/skill_platform). Projection classes
-- are registered and ordered by their dependencies, and a plan says which of them to rebuild; one of
-- them folds the executions of skills.
--   Projections.antt             base.py and registry.py; Projections/Register: what registration
--                                keeps; Projections/Order: the laws of the computed order, over
--                                Membership, Adjacency, Waiting, Measure, Sorted, Loop and Kahn
--   Projections/Cycles.antt      the search for cycles and topological_sort; below it Visits, Search,
--                                Rounds, Roots and Accepts follow the search, Sort has its laws
--   Planner.antt                 planner.py, cache.py, and the composite fingerprint of fingerprint.py;
--                                Planner/Verdicts, Rounds, Loop, Stale, Fresh: its laws
--   Execution.antt               skill_platform/execution_state.py; Execution/Steps, Lists, Counted
--                                and Counts: its laws
--
-- Agent sessions (rationalevault/runtime). A session is attached to a workspace, streamed to, paused,
-- resumed, detached and closed; a registry keeps the sessions.
--   Session.antt                 agent_runtime.py, workspace_binder.py, session_registry.py;
--                                Session/Lifecycle and Registry: its laws
--
-- How code becomes definitions. A class that keeps state is a record that its operations take
-- and return; an operation that may raise returns a `Result`, and a raise leaves no new state,
-- as the transactions of the stores roll back. A table is the list of its rows in the order of
-- insertion, and ORDER BY is a stable sort of it. A loop is a recursion on its list, without
-- fuel; only two loops over work lists have fuel, and are proved to end within it:
-- `_compute_order`, with one round for each class, and the search for cycles, with one for each
-- class and each dependency. Sequences, orders and the versions of events in their project are
-- natural numbers, schema versions integers or, in an event, any JSON value; Python's integers and
-- SQLite's rowids that stay below 2 ^ 63 behave alike. A `dict` is an association
-- list in insertion order. Payloads of the ledger, timestamps, UUIDs, SHA-256 digests and the
-- JSON text of the ledger are parameters; where a theorem relies on the JSON text being read
-- back as it was written, it says so. Payloads of the event store are JSON values without
-- floating-point numbers, and a snapshot's dicts keep their keys as values: an id that is no
-- text, which JSON text would turn into one, is kept as it is. `setattr` on a task is modelled for
-- the declared fields and for `__dict__`, `__class__` and `__weakref__`; the other attributes that
-- every Python object has change no field. Which classes derive from BaseProjection is a parameter.
-- The digests of the ledger raise nothing. One process acts at a time: the stores lock the database
-- for each append.
--
-- Not modelled: the PostgreSQL stores, warnings on stderr, the reads of the event store by session
-- and of recent events, the wrappers that test reducers (rationalevault/replay/reducer.py), the
-- fingerprints of events and of knowledge, the running of skills, the projections that score or
-- search, and the packages that read heads and events for search, evaluation, transport and display.
mod Prelude
pub mod Ledger
pub mod Value
pub mod Events
pub mod EventStore
pub mod CognitiveHead
pub mod Schema
pub mod Governance
pub mod Pipeline
pub mod Execution
pub mod Projections
pub mod Planner
pub mod Session
pub mod Replay
