-- ===== src/Middleware.antt =====
-- internal/middleware: permissions, the tenant headers, authentication and CORS.
pub mod Authz
pub mod Tenant
pub mod Auth
pub mod Cors
