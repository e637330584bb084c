-- ===== src/Game/Run/Emits.antt =====
-- The events that the engine ever makes, and for whom they are.
use mafia_game_party.Prelude.{
  ℕ, zero, suc, some, List, [], ◌∷◌, PlayerId, String, get_elem?, ◌≡◌, subst, arith,
}
use mafia_game_party.Prelude.Time.{Time}
use mafia_game_party.Game.Types.{Options}
use mafia_game_party.Game.State.{Player}
use mafia_game_party.Game.Event.{EventEnvelope, Action}
use mafia_game_party.Game.Rand.{Rng}
use mafia_game_party.Game.Engine.{Engine, Result, ok}
use mafia_game_party.Game.Start.{start}
use mafia_game_party.Game.Apply.{apply}
use mafia_game_party.Game.Tick.{tick}
use mafia_game_party.Game.Apply.Told.{start-Addressed, apply-Addressed}
use mafia_game_party.Game.Tick.Told.{tick-Addressed}
use mafia_game_party.Game.Audience.{audience, Addressed, IsAddressed}

-- A call of the engine, in whatever state it is, has these events.
pub data Emits (R : Rng) (events : List EventEnvelope) : Type 0 where
  started :
      (game_id : String) (host : PlayerId) (players : List Player) (o : Options) (e : Engine)
      → (start R game_id host players o e).1 ≡ ok events
      → Emits R events
  acted : (a : Action) (e : Engine) → (apply R a e).1 ≡ ok events → Emits R events
  ticked : (now : Time) (e : Engine) → (tick R now e).1 ≡ ok events → Emits R events

answered :
    (r : Result (List EventEnvelope)) (events : List EventEnvelope)
    → r ≡ ok events
    → IsAddressed r
    → Addressed events
unfolding IsAddressed
answered r events h a = subst IsAddressed h a

Emits-Addressed : (R : Rng) (events : List EventEnvelope) → Emits R events → Addressed events
Emits-Addressed R events (started game_id host players o e h) =
    answered _ events h (start-Addressed R game_id host players o e)
Emits-Addressed R events (acted a e h) = answered _ events h (apply-Addressed R a e)
Emits-Addressed R events (ticked now e h) = answered _ events h (tick-Addressed R now e)

Addressed-get :
    (events : List EventEnvelope) (k : ℕ) (env : EventEnvelope)
    → Addressed events
    → get_elem? events k ≡ some env
    → (env.visibility, env.player_id) ≡ audience env.event
unfolding Addressed
Addressed-get [] k env a h = ground arith
Addressed-get (x ∷ events) zero env a h =
    let same : x ≡ env = ground arith in
    subst (λ y. (y.visibility, y.player_id) ≡ audience y.event) same a.0
Addressed-get (x ∷ events) (suc k) env a h = Addressed-get events k env a.1 h

-- Each envelope that a start, an action or a tick makes, in any state of the engine, is addressed to
-- the audience of its event.
pub Emits-audience :
    (R : Rng) (events : List EventEnvelope) (k : ℕ) (env : EventEnvelope)
    → Emits R events
    → get_elem? events k ≡ some env
    → (env.visibility, env.player_id) ≡ audience env.event
Emits-audience R events k env m h = Addressed-get events k env (Emits-Addressed R events m) h
