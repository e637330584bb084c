-- ===== src/Game/End.antt =====
-- internal/game/end.go: the win conditions, and the end of a game.
use mafia_game_party.Prelude.{Option, none, some, List, [], ◌∷◌, leb, ◌==◌, if◌then◌else◌}
use mafia_game_party.Prelude.Time.{Time, add, seconds}
use mafia_game_party.Game.Types.{
  Team, Phase, is_phase, EndReason, default_final_result_buffer_seconds,
}
use mafia_game_party.Game.State.{State, PendingGameEnd, live_mafia_count, live_citizen_side_count}
use mafia_game_party.Game.Event.{EventEnvelope, game_ended, public_event}
use mafia_game_party.Game.Error.{ErrorCode, errf}
use mafia_game_party.Game.Engine.{Method, set_state, ok, err}

unfoldable pub evaluate_end : State → Option (EndReason × Team)
evaluate_end s =
    let mafia = live_mafia_count s.players in
    let citizens = live_citizen_side_count s.players in
    if is_phase s.phase Phase.end
    then none
    else if mafia == 0
    then some (EndReason.citizen_win, Team.citizen)
    else if leb citizens mafia
    then some (EndReason.mafia_win, Team.mafia)
    else none

unfoldable pub end_game : EndReason → Team → State → State × List EventEnvelope
end_game reason winner s = (
  record s { phase = Phase.end; end_reason = some reason; winner = some winner },
  public_event (game_ended (some winner) reason s.players) ∷ [],
)

abbrev check_end_at : Option (EndReason × Team) → State → State × Option (List EventEnvelope)
check_end_at none s = (s, none)
check_end_at (some (reason, winner)) s =
    let (s', events) = end_game reason winner s in (s', some events)

-- `none` is the result `false`.
unfoldable pub check_end : State → State × Option (List EventEnvelope)
unfolding evaluate_end end_game
check_end s = check_end_at (evaluate_end s) s

abbrev schedule_unless : Option PendingGameEnd → EndReason → Team → Time → State → State
schedule_unless (some p) reason winner now s = s
schedule_unless none reason winner now s = record s {
  pending_game_end = some (record {
    reason = reason;
    winner = some winner;
    deadline = add now (seconds default_final_result_buffer_seconds);
  });
}

-- `now` is the reading of the engine's clock.
unfoldable pub schedule_game_end : EndReason → Team → Time → State → State
schedule_game_end reason winner now s = schedule_unless s.pending_game_end reason winner now s

abbrev fire : PendingGameEnd → Option Team → State → Method
fire p none s e = (set_state s e, err (errf ErrorCode.validation))
fire p (some winner) s e =
    let (s', events) = end_game p.reason winner s in (set_state s' e, ok events)

-- The state that `firePendingEnd` returns: its copy is made before `endGame` changes the phase.
abbrev pub fired_state : Time → State → State
fired_state now s = record s { pending_game_end = none; last_tick_at = now }

-- `p` is the record that `e.state.PendingGameEnd` points to.
unfoldable pub fire_pending_end : PendingGameEnd → Time → Method
unfolding end_game
fire_pending_end p now e = fire p p.winner (fired_state now e.state) e
