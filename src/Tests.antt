-- ===== src/Tests.antt =====
-- The theorems at concrete inputs, and runs of the modelled code.
mod AgentV2
mod Events
mod Limits
mod Conns
mod Traffic
mod Config
mod Machine
mod Kernels
mod Platform
mod Service
