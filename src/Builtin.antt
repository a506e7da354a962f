-- ===== src/Builtin.antt =====
-- The middleware that comes with the library: thruster/src/middleware.
pub mod Query
pub mod Cookies
pub mod Files
pub mod Headers
