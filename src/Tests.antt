-- ===== src/Tests.antt =====
-- Concrete worlds for the modelled code, and the theorems at work in them.
pub mod Fakes
mod DomainTests
mod SearchTests
mod PostgresTests
mod PagingTests
mod SyncTests
mod IsolationTests
mod JobTests
mod UpsertTests
mod LoggerTests
mod Platforms
mod AppTests
mod SyncingTests
mod CooldownTests
mod ExclusionTests
mod LifecycleTests
mod RedisTests
mod LockerTests
mod ProviderTests
mod MockTests
mod TransportTests
mod ScoringTests
