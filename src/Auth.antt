-- ===== src/Auth.antt =====
-- internal/auth: tokens and hostnames are resolved by the Identity plugin, behind a cache.
pub mod Cache
pub mod Introspect
pub mod Domain
