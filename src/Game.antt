-- ===== src/Game.antt =====
-- internal/game: the domain core. Its child modules follow the package's files.
pub mod Types
pub mod State
pub mod Event
pub mod Audience
pub mod Error
pub mod Validation
pub mod Rand
pub mod Keyword
pub mod Engine
pub mod Role
pub mod End
pub mod Night
pub mod NightAction
pub mod Vote
pub mod Lifecycle
pub mod Start
pub mod Tick
pub mod Apply
pub mod Run
pub mod Invariant
