-- ===== src/AgentV2.antt =====
-- internal/agentv2/protocol.go: the encrypted envelope protocol between the agent and the panel.
pub mod Word
pub mod Replay
pub mod Wire
pub mod Session
pub mod Delivery
pub mod Once
