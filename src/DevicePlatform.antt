-- ===== src/DevicePlatform.antt =====
-- internal/deviceplatform: one agent that runs the nodes of a whole machine.
pub mod Nodes
pub mod Discovery
pub mod Restart
pub mod Cursor
pub mod Upgrade
pub mod Commands
pub mod Reports
