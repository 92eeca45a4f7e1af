-- ===== src/MetadataCache.antt =====
-- The metadata cache of core/internal/metadatacache/metadatacache.go: its tables and operations, and
-- what they keep.
pub mod Cache
pub mod Purge
pub mod Rows
pub mod Aliases
