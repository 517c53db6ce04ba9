-- ===== src/Infra.antt =====
-- internal/infra: the adapters behind the ports.
pub mod Redis
pub mod Postgres
pub mod Provider
