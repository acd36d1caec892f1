-- ===== src/ControlPlane.antt =====
-- internal/controlplane: between the panel and the node service.
pub mod Delta
pub mod Mailbox
pub mod Platform
