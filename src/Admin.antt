-- ===== src/Admin.antt =====
-- internal/server/admin: the requests of the administrators. The middleware has put the actor into
-- the request; a path is what is left behind the prefix of the route.
pub mod Tables
pub mod Devices
pub mod Reports
pub mod Keeps
pub mod Revoke
pub mod Unknown
