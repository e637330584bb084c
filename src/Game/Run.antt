-- ===== src/Game/Run.antt =====
-- A game as the sequence of the calls that the engine receives: `Apply` and `Tick` of engine.go,
-- which a lock of the caller orders. Each call carries the reading of the clock.
pub mod Safe
pub mod Ages
pub mod Mortal
pub mod Phases
pub mod Diagram
pub mod Final
pub mod Emits
pub mod Live
use mafia_game_party.Prelude.{List, [], ◌∷◌}
use mafia_game_party.Prelude.Time.{Time}
use mafia_game_party.Game.Event.{Action, EventEnvelope}
use mafia_game_party.Game.Rand.{Rng}
use mafia_game_party.Game.Engine.{Engine, Result}
use mafia_game_party.Game.Apply.{apply}
use mafia_game_party.Game.Tick.{tick}

pub data Call : Type 0 where
  act : Time → Action → Call
  tick_at : Time → Time → Call

module _ (R : Rng) where
  unfoldable pub step : Call → Engine → Engine × Result (List EventEnvelope)
  step (act clock a) e = apply R a (record e { clock = clock })
  step (tick_at clock now) e = tick R now (record e { clock = clock })

  unfoldable pub run : List Call → Engine → Engine
  run [] e = e
  run (c ∷ calls) e = run calls (step c e).0
