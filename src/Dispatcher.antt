-- ===== src/Dispatcher.antt =====
-- internal/dispatcher: the gateway's data plane.
pub mod Routes
pub mod Nav
pub mod Gateway
pub mod Dispatch
pub mod Regions
pub mod Proxy
