-- ===== src/Controller.antt =====
-- internal/controller
pub mod Broker
pub mod Peers
pub mod Hub
pub mod Server
pub mod Guard
pub mod Enrolment
pub mod Admin
pub mod Requests
pub mod Routes
pub mod Sample
mod Tests
pub mod DerpMap
pub mod Start
pub mod Status
