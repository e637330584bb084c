-- ===== src/Examples.antt =====
-- Concrete games on which the theorems are applied.
pub mod Setup
pub mod Games
pub mod Distinct
pub mod Rules
pub mod Actions
pub mod Lobby
pub mod Views
pub mod Hub
pub mod Stored
pub mod Process
