-- ===== src/Library.antt =====
-- core/internal/library: what each user can reach.
pub mod Reach
pub mod Derive
pub mod Service
pub mod Audience
pub mod Changes
pub mod Coherence
pub mod Refinement
pub mod Draft
pub mod Coverage
