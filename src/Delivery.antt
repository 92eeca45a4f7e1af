-- ===== src/Delivery.antt =====
-- core/internal/delivery: the delivery engine (delivery.go) and its pipelines (pipeline.go).
pub mod Manifest
pub mod Pipeline
pub mod Session
pub mod Start
pub mod Ending
pub mod Liveness
pub mod Engine
pub mod Counting
pub mod Capacity
pub mod Index
pub mod Invariant
pub mod Consistency
pub mod Revocation
pub mod Eviction
pub mod Watchdog
pub mod Phantom
pub mod Admission
pub mod Quota
