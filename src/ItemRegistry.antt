-- ===== src/ItemRegistry.antt =====
-- core/internal/itemregistry: provider items mapped to library entries.
pub mod Records
pub mod Claims
pub mod Search
pub mod Entries
pub mod Resolve
pub mod History
pub mod Aliases
pub mod Attachment
pub mod Views
