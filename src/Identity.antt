-- ===== src/Identity.antt =====
-- core/internal/identity: whether two provider items are the same title.
pub mod Title
pub mod Match
pub mod Select
pub mod Proof
pub mod Symmetry
pub mod Evidence
pub mod Adoption
pub mod Sameness
