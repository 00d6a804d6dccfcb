-- ===== src/ControlPlane.antt =====
-- internal/controlplane: how plugins join and leave, and the tokens that they show.
pub mod PluginToken
pub mod Handlers
pub mod Session
pub mod Mount
pub mod Regions
