-- ===== src/Config.antt =====
-- internal/config: the configuration of the daemon.
pub mod Expand
pub mod Types
pub mod Template
pub mod Servers
pub mod Inputs
pub mod Headers
pub mod Tools
pub mod Services
pub mod Loading
