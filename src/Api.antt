-- ===== src/Api.antt =====
-- internal/server/api/api.go: what the handlers share.
pub mod Ports
pub mod RateLimit
pub mod Address
pub mod Escape
