-- ===== src/Lib.antt =====
-- keelage keeps a ledger of events for a team that works with coding agents: what agents may do
-- alone, what a human has judged, and which rules and anchors bind the code. Every part of its
-- core is an aggregate: a state, a function `Decide` from a command and a context to events or to
-- a refusal, and a function `Apply` that folds an event into the state. A stream's state is the
-- fold of its events, and a refused command leaves none.
--
-- Files, with the code that each models (paths from the repository's root):
--
-- - Prelude: shared names, lists, texts as lists of bytes with the functions of Go's package
--   strings that the program calls, and Go's int.
-- - Core/Event, Core/Aggregate: internal/core/event.go. `Result` is Go's pair of a result and an
--   error, `replay` is Replay, and `run` sends a stream of commands to an aggregate, each with
--   the context that it is decided in. Invariants are proved for every such stream by
--   `run_induction`.
-- - Core/Actor: ids.go. Core/Level: level.go, with the table of transitions. Core/ScopeKey, with
--   RoundTrip and Containment: scope.go, Validate, ParseScopeKey, String, Contains. Core/Anchor:
--   anchor.go, ParseAnchor. Core/Hash3: hash3.go. Core/Context: context.go. All in
--   internal/core.
-- - Accountability/Change: internal/core/accountability/change.go. State holds the data, Rules
--   the commands open, addProposal and judge, Clearance judgmentsAllow, Decide the rest of
--   Decide, and Apply. Accepted says what an accepted command has passed; Cleared, Invariant,
--   Lifecycle and Settlement hold the theorems.
-- - Accountability/Gate: gate.go, the broker's policy, requests, resolutions and expiry.
-- - Accountability/Session: session.go, turns, judgment candidates, summary and sharing.
-- - Harness/Scope: internal/core/harness/scope.go, the level of a scope and its cap.
--   Harness/Constraint: constraint.go. Harness/Decision: decision.go.
-- - Realization/Anchor: internal/core/realization/anchor.go, the stages of drift of an anchor.
-- - Core/Envelope: internal/core/envelope.go, a record's seal and the chain of hashes. Ledger:
--   internal/adapter/memory/ledger.go with the errors and types of internal/port/ledger.go;
--   `append` returns the range or the error and the ledger afterwards, and is one step, as it is
--   under the program's lock.
-- - Core/ScopeKey/Resolve: Resolve of internal/core/scope.go, with Prelude/Sort for package sort
--   and Prelude/Dict for maps with string keys.
-- - Ledger/Reads and Views: Read, ReadAll, Lookup and FindOrigin of the memory ledger and its
--   indices. Ledger/Log and Streams are the abstract view, a list of records, and Ledger/Port
--   the interface of internal/port/ledger.go with its contract; Ledger/Memory is the memory
--   ledger as an implementation of it.
-- - App/Options and App/Pipeline: internal/app/pipeline.go and internal/app/rejected.go.
--   `handle` is the function handle, split at its numbered steps: replay_or_load,
--   load_and_decide, decide_on, decided, commit, publish_written. What it reads and writes is
--   the record World, the ledger's state and the read models'. The section's argument `o` is
--   Options, with any ledger, codec, source of contexts, projectors and aggregate. Ends says how
--   it can end; Refinement, Retry, Interleaving and Refusals hold the theorems.
-- - Core/Codec: internal/core/codec.go, the registry of event types with their upcasts; a map is
--   a function, and encoding/json is the parameter Json. App/Rebuild: internal/app/rebuild.go,
--   `replay_batch` for the loop over a batch and `replay_pages` for that over the pages.
-- - App/Projection: internal/app/projection.go, the indices of scopes, constraints and changes
--   as folds of events, and their queries.
-- - Merkle: internal/merkle/merkle.go. Tree is ParentsToStore, Stored the table of nodes that
--   its caller keeps, Checkpoint the signed tree heads and the bundles, Issued what a bundle
--   that verifies says of the checkpoints that were signed.
-- - Supply/Manifest: internal/core/supply/manifest.go, the record of a repository's imports and
--   of the files written into it; `set_by_path` and `find_by_path` are the loops that its
--   methods share.
-- - Tests: the theorems applied to concrete inputs, and the definitions run on them.
--
-- How the parts meet. The aggregates share only the values of Core: the context carries the
-- effective level, the cap, the owners who have to judge and the policy, which the program
-- resolves before it calls Decide. Change and Gate read the levels that Scope keeps, Constraint
-- moves along the scopes that ScopeKey orders, and Realization compares the hashes of Hash3. The
-- pipeline runs every aggregate: it loads it from its stream of the ledger, lets it decide, and
-- appends what it decided at the version that it was loaded at. It reaches the ledger through the
-- interface only, so that what holds of it holds of every ledger that keeps the contract. The
-- projections fold the same events as the aggregates, those of all streams together.
--
-- Conventions. A Go string is its bytes, and a string type with constants is a data type whose
-- constructor `other` holds every other text, or, where the program itself only ever writes the
-- constants, one without it. A state type's empty text is the constructor `absent`. A method with
-- a value receiver is a function of the record. The reason of a rejection, text for people, is
-- left out; its code stays. Functions of the library that the program calls and that are not
-- strings' simple ones, path.Match, path.Clean and strings.ToUpper, are the fields of the record
-- Std, a parameter of every definition that uses them; SHA-256 and the encoding of a record's meta
-- part are those of Sealing. Times and durations are natural numbers of nanoseconds, the zero time
-- being 0. Levels are Go's int as integers; a counter that grows is kept modulo 2 ^ 64. Fuel is
-- used by the two functions that write a number in decimal: each digit divides the number by ten,
-- so the number itself is fuel enough. ParentsToStore halves an index in every round, so the index
-- and one more round is fuel enough, and it is proved to be. Decode raises the version in every
-- round, so the latest version is fuel enough. Replay takes its fuel as an argument: each round
-- but the last takes a full page.
--
-- Not modelled: the commands' stream and idempotency keys beyond their names, Register and Handle,
-- which look a handler up by a command's kind, the JSON of the codec and the lists of what it has
-- registered, the ledgers in databases, the hash of the constraints in force and the rest of the
-- derivation of contexts, the roots and proofs of the Merkle log, which the library assembles, the
-- services built on the pipeline, the transports and the adapters. They are input and output, or
-- they are planned. A pipeline's commands run one at a time; what others append between its load
-- and its append is an argument of the theorem on interleaving.
pub mod Prelude
pub mod Core
pub mod Accountability
pub mod Harness
pub mod Realization
pub mod Ledger
pub mod App
pub mod Merkle
pub mod Supply
pub mod Tests
