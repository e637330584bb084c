-- ===== src/Game/Invariant.antt =====
-- The invariant of a started game, and that every call of the engine keeps it.
pub mod Players
pub mod Defs
pub mod Night
pub mod Vote
pub mod Actions
pub mod Tick
pub mod Apply
