-- ===== src/Enrichment.antt =====
-- core/internal/enrichment: the queue of entries that wait for metadata, the merge, the engine and the worker.
pub mod Queue
pub mod Order
pub mod Merge
pub mod Claiming
pub mod Ownership
pub mod Provenance
pub mod Merged
pub mod Wiped
pub mod Engine
pub mod Candidates
pub mod Winner
pub mod Stored
pub mod Again
pub mod Worker
pub mod Draining
