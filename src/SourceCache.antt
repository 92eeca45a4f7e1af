-- ===== src/SourceCache.antt =====
-- core/internal/sourcecache: what each linked account carries.
pub mod Table
pub mod Paths
pub mod Sync
pub mod Refresh
pub mod Landing
pub mod Items
pub mod Snapshot
pub mod Outcome
pub mod Ingest
