-- ===== src/Domain.antt =====
-- internal/domain: the entities, their scores, the search parameters, and the ports.
pub mod Content
pub mod Search
pub mod Scoring
pub mod Ports
