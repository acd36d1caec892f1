-- ===== src/Kernel.antt =====
-- internal/kernel: the proxy kernels.
pub mod ConnTracker
pub mod XrayDispatcher
pub mod Outbounds
