-- ===== src/Api.antt =====
-- core/internal/apiserver: the calls that change linked accounts.
pub mod Requests
pub mod Handlers
pub mod Members
pub mod Writes
pub mod Cutoff
pub mod Access
pub mod Removal
pub mod Link
pub mod Rollback
pub mod Bus
pub mod Routing
