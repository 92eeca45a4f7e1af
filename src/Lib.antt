-- ===== src/Lib.antt =====
-- ABCMovies: the decision logic of the core (Go, core/internal), modelled and verified.
--
-- A user's request passes through these parts. The usage policy (core/internal/policy) says how many
-- streams an account and a member may hold. The delivery engine (core/internal/delivery) admits,
-- tracks, revokes and times out play and download sessions under those limits. What there is to play
-- comes from providers: title identity (core/internal/identity) decides whether two items are one
-- title, and the provider item registry (core/internal/itemregistry) maps each provider's item to a
-- library entry by it. The account store (core/internal/accounts) keeps the linked accounts and who
-- may use them; the source cache (core/internal/sourcecache) keeps what each of them carries; the
-- library (core/internal/library) derives, for each user, what the reachable accounts' source caches
-- and the item registry give, and caches it. The account handlers of the API server
-- (core/internal/apiserver) change an account in the store, then its audience in the library, then the
-- sessions of the engine. Enrichment (core/internal/enrichment) takes the entries that wait for
-- metadata from a queue, looks each up in the catalogues, takes the candidate that title identity picks,
-- and merges its record into the metadata cache (core/internal/metadatacache). Pacing
-- (core/internal/pacing) holds requests to a provider to an account's budget. The scheduler
-- (core/internal/scheduler) runs the jobs that repeat. Sessions of users are in core/internal/auth,
-- events go to them over the bus of the API server, and core/internal/schema says which messages are
-- well formed.
--
-- Base: Go's strings as lists of bytes, maps as association lists, slices as lists, `int` as an integer.
-- Policy: policy.go. Key has the limit types, Atoi is strconv.Atoi, Limits the operations (Set.With is
-- `with_overlay`), Validation what ParseInstance guarantees.
-- Delivery: delivery.go and pipeline.go. Manifest and Pipeline are the checks on a manifest and the choice
-- of a plan; Session is the engine's state; Start, Ending and Liveness are its methods; Engine is a run of
-- calls; Counting, Capacity, Admission, Index, Invariant, Consistency, Revocation, Eviction,
-- Watchdog, Quota and Phantom prove.
-- Identity: Title (normalize.go), Match (match.go), Select (select.go) and Proof (proof.go) define; Evidence,
-- Symmetry, Adoption and Sameness prove.
-- ItemRegistry: registry.go. Records is its data, Claims the unions, Search is findTarget, Entries is putEntry
-- and absorb, Resolve is Resolve, Lookup and Alias, Views is Canonical; History, Aliases and Attachment prove.
-- Pacing: pacing.go. Limiter is a budget among its callers, as a step relation; Concurrency proves what it
-- bounds; Governor is a provider's shared back-off; Gate is one request under both, Retries proves.
-- MetadataCache: metadatacache.go. Cache is its records and aliases, over any codec; Purge, Rows and
-- Aliases prove.
-- Enrichment: Queue (queue.go), Merge (merge.go), Engine (engine.go) and Worker (worker.go, cadence.go)
-- define; Order, Claiming, Ownership, Provenance, Merged and Wiped, Candidates, Winner, Stored and Again, and
-- Draining prove of each of them in turn.
-- Schema: schema.go, provider.go and api.go. Source, Jobs, Events, Entries, Messages and Requests define the checks;
-- Carriers and Circular prove what the check of a manifest ensures and what it does not.
-- Auth: auth/session.go. Sessions defines; Validity and Lifetime prove.
-- Scheduler: scheduler.go. Workers has the registered jobs and the live workers, Waits the waits of a
-- worker; Removal proves of Workers.
-- Accounts: accounts.go. Record and Store define; Roster and Invariant prove.
-- SourceCache: sourcecache.go. Table is its rows, Paths the keys under which the store has them, Sync is SyncAccount, whose loop takes as fuel the pages that
-- its own limit leaves it, Refresh is IngestItems and RefreshItems; Landing, Items, Snapshot, Outcome and
-- Ingest prove.
-- Library: library.go. Changes says which changes of an account leave what others see. Reach is who may use an account, Derive is RebuildUser's computation, Service the
-- cached libraries; Audience, Coherence and Refinement prove the cache right, Draft and Coverage the derivation.
-- Api: accounts.go and sharing.go of core/internal/apiserver. Requests is what is asked and how it is checked,
-- Handlers is UpdateAccount and RemoveAccount, Link is LinkAccount; Members, Writes, Cutoff, Access, Removal
-- and Rollback prove. Bus is bus.go, with the channel of a subscriber as the list of what waits in it;
-- Routing proves.
-- Tests: concrete inputs.
--
-- A method that takes a lock is one step on an explicit state. The order of an association list stands
-- for the order of an iteration over a map, which Go leaves open. Error messages are left out, error
-- kinds and positions kept. The clock, random ids, provider slots and sinks are arguments of the calls
-- that read them; a store is the table of what it holds, and does not fail. Start stages a play menu after
-- its lock is released, and here in one step with admission. The rows of the source cache are keyed by
-- provider, account and native id, where the store joins these by slashes without an escape: the theorem
-- on a sync speaks of the keys for which the two agree. Account records and credentials, which share the
-- key space of the vault, are two tables. A worker of the scheduler that is cancelled is gone at once,
-- where a run of its that is under way may still end. Numbers: counters and
-- times are natural numbers and do not wrap; `int` limits are integers parsed within 64 bits, and the
-- shifts of the back-offs wrap at 64 bits. Three definitions take fuel: the decimal print of a session's
-- number, one round more than the number; the sync loop, which the source bounds itself; and the
-- worker's drain of the queue, one round more than the entries that wait. The attempts of Gate are
-- counted down from MaxRetries.
--
-- Third-party and standard libraries are parameters: Unicode normalization (Identity), the protobuf codec
-- (MetadataCache), hashes, hexadecimal digits and RFC 3339 times (Auth), the float arithmetic of a jitter
-- (Scheduler), catalogues and providers (Enrichment, SourceCache).
--
-- Not modelled: transports, adapters and the web frontend, which translate messages of other services;
-- storage engines and cryptography, with sign-up and login, which call third-party code; the
-- configuration, the provider registry and the wiring of slots, which put the parts together; and the
-- handlers of the API server that only pass a call on.
mod Base
pub mod Policy
pub mod Delivery
pub mod Identity
pub mod ItemRegistry
pub mod Pacing
pub mod MetadataCache
pub mod Enrichment
pub mod Schema
pub mod Auth
pub mod Scheduler
pub mod Accounts
pub mod SourceCache
pub mod Library
pub mod Api
mod Tests
