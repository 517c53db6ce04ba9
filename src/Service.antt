-- ===== src/Service.antt =====
-- internal/app/service: the use cases.
pub mod CacheKey
pub mod Search
pub mod Sync
