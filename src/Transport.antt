-- ===== src/Transport.antt =====
-- internal/transport/httpserver: what the HTTP server reads and answers.
pub mod Dto
pub mod Handler
pub mod Middleware
pub mod Router
