-- ===== src/Server.antt =====
-- server: the rules on hostnames, and the chain of middleware in front of the dispatcher.
pub mod HostPort
pub mod ProductHosts
pub mod CustomDomain
pub mod OnDemand
pub mod Chain
pub mod Own
