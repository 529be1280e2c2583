-- ===== src/ExpertCache.antt =====
-- storage/ssd_expert_cache: the bounded cache of routed experts that are read from the package file.
pub mod Spec
pub mod Ranges
pub mod State
pub mod Victim
pub mod Remove
pub mod Buffers
pub mod Eviction
pub mod Reserve
pub mod Io
pub mod Notes
pub mod Request
pub mod Acquire
pub mod Register
pub mod Configure
pub mod Quotas
pub mod Advice
pub mod Retain
pub mod Store
pub mod Registration
pub mod Reads
pub mod System
pub mod Sample
pub mod Preferences
pub mod Prefetching
pub mod Retention
