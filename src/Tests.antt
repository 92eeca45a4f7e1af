-- ===== src/Tests.antt =====
-- Concrete inputs for the theorems, and runs of the definitions on them.
mod Delivery
mod Policy
mod Identity
mod ItemRegistry
mod Pacing
mod MetadataCache
mod Metadata
mod Schema
mod Bus
mod Auth
mod Scheduler
mod Accounts
mod Library
mod SourceCache
mod Api
