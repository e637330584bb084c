-- ===== src/Game/Night.antt =====
-- internal/game/resolve_night.go: the entry into a night, its steps and its end.
pub mod Outcome
pub mod Successor
pub mod Told
use mafia_game_party.Prelude.{
  ℕ, suc, ◌+◌, Bool, true, false, not, ◌&&◌, Option, none, some, List, [], ◌∷◌, ◌++◌, PlayerId,
  nobody, ◌===◌, if◌then◌else◌, length, get_or, ◌+ℤ◌,
}
use mafia_game_party.Prelude.Time.{Time, zero_time, add, seconds}
use mafia_game_party.Game.Types.{
  Role, is_role, Team, team_of, Phase, NightStep, is_step, EndReason, night_step_seconds,
  default_day_intro_seconds,
}
use mafia_game_party.Game.State.{
  Player, State, PoliceCheckRecord, find_player, kill, living_mafia_ids,
}
use mafia_game_party.Game.Event.{
  EventEnvelope, public_event, private_event, mafia_event, phase_changed, night_step_changed,
  death_announced, peaceful_night, mafia_target_selected, police_result,
  mafia_representative_reassigned,
}
use mafia_game_party.Game.Error.{ErrorCode, Failure, errf}
use mafia_game_party.Game.Validation.{require, ensure_host, ensure_phase, ensure_role, ensure_alive}
use mafia_game_party.Game.Rand.{Rng, new_inner_rand}
use mafia_game_party.Game.Engine.{Engine, Result, ok, err, Method, set_state, fail, succeed, ◌>>◌}
use mafia_game_party.Game.End.{evaluate_end, schedule_game_end}

unfoldable pub begin_night_step : NightStep → Time → State → State × List EventEnvelope
begin_night_step step started_at s =
    let deadline = add started_at (seconds (night_step_seconds s.settings step)) in
    (
      record s { night_step = step; night_step_deadline = deadline },
      public_event (night_step_changed step s.day deadline) ∷ [],
    )

unfoldable pub enter_night : Time → State → State × List EventEnvelope
unfolding begin_night_step
enter_night now s =
    let cleared = record s {
      phase = Phase.night;
      deadline = zero_time;
      votes = [];
      vote_round = 0;
      vote_candidates = [];
      pending_mafia_target = none;
      pending_doctor_target = none;
      pending_police_target = none;
      police_checked_this_night = false;
      night_step = NightStep.unset;
      night_step_deadline = zero_time;
      last_tick_at = now;
    } in
    let (s', events) = begin_night_step NightStep.intro now cleared in
    (s', public_event (phase_changed Phase.night s.day zero_time) ∷ events)

unfoldable pub next_night_step : NightStep → NightStep
next_night_step NightStep.intro = NightStep.mafia
next_night_step NightStep.mafia = NightStep.police
next_night_step NightStep.police = NightStep.doctor
next_night_step NightStep.doctor = NightStep.resolved
next_night_step NightStep.unset = NightStep.resolved
next_night_step NightStep.resolved = NightStep.resolved

abbrev victim_unless : PlayerId → Option PlayerId → Option PlayerId
victim_unless target none = some target
victim_unless target (some healed) = if healed === target then none else some target

abbrev victim_of : Option PlayerId → Option PlayerId → Option PlayerId
victim_of none heal = none
victim_of (some target) heal = victim_unless target heal

-- The mafia's target, unless the doctor protects it.
unfoldable pub night_victim : State → Option PlayerId
night_victim s = victim_of s.pending_mafia_target s.pending_doctor_target

-- What `resolveNight` writes after the death; the events of the death stand behind the phase's.
unfoldable pub begin_day : Time → State → State
begin_day now s = record s {
  pending_mafia_target = none;
  pending_doctor_target = none;
  pending_police_target = none;
  police_checked_this_night = false;
  night_step = NightStep.unset;
  night_step_deadline = zero_time;
  day = suc s.day;
  phase = Phase.day;
  deadline = add now (seconds (default_day_intro_seconds +ℤ s.settings.discussion_seconds));
  last_tick_at = now;
}

abbrev schedule_if : Option (EndReason × Team) → Time → State → State
schedule_if none now s = s
schedule_if (some (reason, winner)) now s = schedule_game_end reason winner now s

-- `if reason, winner, ok := e.evaluateEnd(); ok { e.scheduleGameEnd(reason, winner) }`
unfoldable pub schedule_end : Time → State → State
unfolding schedule_game_end evaluate_end
schedule_end now s = schedule_if (evaluate_end s) now s

module _ (R : Rng) where
  open R use {Rand, intn}

  choose : List PlayerId → Option Rand → PlayerId
  choose living none = get_or living 0 nobody
  choose living (some r) = get_or living (intn r (length living)).0 nobody

  reassign_among : List PlayerId → PlayerId → Engine → Engine × List EventEnvelope
  reassign_among [] old e = (set_state (record e.state { mafia_representative_id = nobody }) e, [])
  reassign_among (i ∷ is) old e =
      let (r, rest) = new_inner_rand R e.rng in
      let chosen = choose (i ∷ is) r in
      (
        record e { state = record e.state { mafia_representative_id = chosen }; rng = rest },
        mafia_event (mafia_representative_reassigned old chosen) ∷ [],
      )

  unfoldable pub reassign_mafia_representative : PlayerId → Engine → Engine × List EventEnvelope
  unfolding reassign_among choose
  reassign_mafia_representative old e = reassign_among (living_mafia_ids e.state.players) old e

  -- `p.Alive = false`, and a new representative if the old one died
  unfoldable pub mark_dead : PlayerId → Engine → Engine × List EventEnvelope
  mark_dead i e =
      let killed = set_state (record e.state { players = kill i e.state.players }) e in
      if i === e.state.mafia_representative_id
      then reassign_mafia_representative i killed
      else (killed, [])

  resolve_victim : Option PlayerId → Engine → Engine × Result (List EventEnvelope)
  resolve_victim none e = (e, ok (public_event peaceful_night ∷ []))
  resolve_victim (some v) e = elim (find_player v e.state.players) [
    | none ↦ (e, err (errf ErrorCode.unknown_player))
    | some p ↦
        let (e', events) = mark_dead v e in (e', ok (public_event (death_announced v) ∷ events))
  ]

  finish_night : Engine × Result (List EventEnvelope) → Engine × Result (List EventEnvelope)
  finish_night (e, err f) = (e, err f)
  finish_night (e, ok follow_up) =
      let s = begin_day e.clock e.state in
      (
        set_state (schedule_end e.clock s) e,
        ok (public_event (phase_changed Phase.day s.day s.deadline) ∷ follow_up),
      )

  unfoldable pub resolve_night : Method
  unfolding resolve_victim finish_night
  resolve_night e = finish_night (resolve_victim (night_victim e.state) e)
