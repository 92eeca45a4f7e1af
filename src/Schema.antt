-- ===== src/Schema.antt =====
-- The contracts of core/internal/schema: manifests, jobs, events, library entries and the messages of
-- slots and the API.
pub mod Source
pub mod Carriers
pub mod Circular
pub mod Jobs
pub mod Events
pub mod Entries
pub mod Messages
pub mod Requests
