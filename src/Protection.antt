-- ===== src/Protection.antt =====
-- internal/protection: the layers that guard every proxied request.
pub mod Firewall
pub mod HealthMonitor
pub mod CircuitBreaker
pub mod Bulkhead
pub mod RateLimiter
