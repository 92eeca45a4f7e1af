-- ===== src/Accounts.antt =====
-- core/internal/accounts: the linked accounts and who may use them.
pub mod Record
pub mod Store
pub mod Roster
pub mod Invariant
