-- ===== src/Agent.antt =====
-- internal/agent
pub mod Outcome
pub mod Http
pub mod Client
pub mod Wire
pub mod Sample
pub mod Identity
pub mod State
pub mod Service
pub mod RelayTarget
pub mod Upgrade
pub mod Health
pub mod Program
pub mod WireGuard
