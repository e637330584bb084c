-- ===== src/Game/Run/Safe.antt =====
-- Every game that `Start` begins keeps its invariant, whatever calls follow.
use mafia_game_party.Prelude.{
  ◌<◌, true, none, List, [], ◌∷◌, String, PlayerId, IsInt64, ◌≡◌, ◌≢◌, ◌⊎◌,
}
use mafia_game_party.Prelude.Time.{Time}
use mafia_game_party.Game.Types.{Phase, Options}
use mafia_game_party.Game.State.{Player, live_mafia_count, live_citizen_side_count}
use mafia_game_party.Game.Event.{EventEnvelope}
use mafia_game_party.Game.Error.{Failure}
use mafia_game_party.Game.Rand.{Rng}
use mafia_game_party.Game.Engine.{Engine, ok, err}
use mafia_game_party.Game.Start.{start}
use mafia_game_party.Game.Start.Fresh.{start-Inv}
use mafia_game_party.Game.Tick.{tick}
use mafia_game_party.Game.Invariant.Defs.{Inv}
use mafia_game_party.Game.Invariant.Players.{ids, Distinct, leads}
use mafia_game_party.Game.Invariant.Apply.{apply-Inv}
use mafia_game_party.Game.Invariant.Tick.{tick-IsSafe}
use mafia_game_party.Game.Run.{Call, act, tick_at, step, run}

module _ (R : Rng) where
  pub step-Inv : (c : Call) (e : Engine) → Inv e.state → Inv (step R c e).0.state
  unfolding step
  step-Inv (act clock a) e v = apply-Inv R a (record e { clock = clock }) v
  step-Inv (tick_at clock now) e v = (tick-IsSafe R now (record e { clock = clock }) v).0

  pub run-Inv : (calls : List Call) (e : Engine) → Inv e.state → Inv (run R calls e).state
  unfolding run
  run-Inv [] e v = v
  run-Inv (c ∷ calls) e v = run-Inv calls (step R c e).0 (step-Inv c e v)

  module _ (e : Engine) (game_id : String) (host : PlayerId) (players : List Player) (o : Options)
      {events : List EventEnvelope} (d : Distinct (ids players)) (w : IsInt64 o.mafia_count)
      (h : (start R game_id host players o e).1 ≡ ok events) (calls : List Call) where
    abbrev pub played : Engine
    played = run R calls (start R game_id host players o e).0

    played-Inv : Inv played.state
    played-Inv =
        run-Inv calls (start R game_id host players o e).0
          (start-Inv R e game_id host players o d w h)

    -- If `Start` succeeds with players of distinct ids and a mafia count that is a 64-bit number, then
    -- after any sequence of actions and ticks the mafia's representative is a living mafia player, or
    -- no mafia lives.
    pub mafia_stay_led :
        (leads played.state.mafia_representative_id played.state.players ≡ true)
        ⊎ (live_mafia_count played.state.players ≡ 0)
    mafia_stay_led = played-Inv.base.led

    -- If `Start` succeeds with players of distinct ids and a mafia count that is a 64-bit number, then
    -- after any sequence of actions and ticks that leaves the game neither ended nor with an end
    -- pending, some mafia live, and fewer of them than of the citizens' side.
    pub undecided_game_open :
        played.state.pending_game_end ≡ none
        → played.state.phase ≢ Phase.end
        → (0 < live_mafia_count played.state.players)
          × (live_mafia_count played.state.players < live_citizen_side_count played.state.players)
    undecided_game_open = played-Inv.undecided

    -- If `Start` succeeds with players of distinct ids and a mafia count that is a 64-bit number, then
    -- after any sequence of actions and ticks one more tick, at any time, returns no error.
    pub tick_never_fails : (now : Time) (f : Failure) → (tick R now played).1 ≢ err f
    tick_never_fails now = (tick-IsSafe R now played played-Inv).1
