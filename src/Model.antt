-- ===== src/Model.antt =====
-- internal/model: the data that the control plane hands to a node.
pub mod Types
pub mod Users
pub mod Ports
pub mod Support
pub mod Routes
pub mod Outbounds
pub mod Accepted
