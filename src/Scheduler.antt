-- ===== src/Scheduler.antt =====
-- core/internal/scheduler/scheduler.go: recurring jobs, their workers and their waits.
pub mod Waits
pub mod Workers
pub mod Removal
