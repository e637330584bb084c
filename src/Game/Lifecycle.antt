-- ===== src/Game/Lifecycle.antt =====
-- internal/game/handlers_lifecycle.go without `StartGame`: the introductions, the voice, the pause,
pub mod Pause
-- and the host's end of the game.
use mafia_game_party.Prelude.{
  ℕ, suc, ◌+◌, Bool, true, false, not, ◌&&◌, ◌||◌, Option, none, some, List, [], ◌∷◌, ◌++◌,
  PlayerId, nobody, ◌===◌, if◌then◌else◌, length, get_elem?, ltb, leb, ℤ, pos_part,
}
use mafia_game_party.Prelude.Time.{Time, zero_time, is_zero, add, sub, seconds}
use mafia_game_party.Game.Types.{Team, Phase, is_phase, NightStep, is_step, EndReason}
use mafia_game_party.Game.State.{Player, State, PendingGameEnd}
use mafia_game_party.Game.Event.{
  EventEnvelope, public_event, phase_changed, intro_speaker_changed, voice_toggled, game_paused,
  game_resumed, game_ended,
}
use mafia_game_party.Game.Error.{ErrorCode, Failure, errf}
use mafia_game_party.Game.Validation.{require, ensure_host, ensure_phase}
use mafia_game_party.Game.Engine.{Engine, Result, ok, err, Method, set_state, fail, succeed, ◌>>◌}
use mafia_game_party.Game.Vote.{finish_with}

unfoldable pub transition_intro_to_day : Time → State → State × List EventEnvelope
transition_intro_to_day now s =
    let deadline = add now (seconds s.settings.discussion_seconds) in
    (
      record s {
        phase = Phase.day;
        deadline = deadline;
        pending_mafia_target = none;
        pending_doctor_target = none;
        pending_police_target = none;
        police_checked_this_night = false;
        night_step = NightStep.unset;
        last_tick_at = now;
      },
      public_event (phase_changed Phase.day s.day deadline) ∷ [],
    )

abbrev id_of : Option Player → PlayerId
id_of none = nobody
id_of (some p) = p.id

-- `Players[i].ID`
abbrev pub speaker : State → ℕ → PlayerId
speaker s i = id_of (get_elem? s.players i)

unfoldable pub next_speaker : Time → State → State × List EventEnvelope
next_speaker started_at s = (
  record s { intro_speaker_idx = suc s.intro_speaker_idx; intro_speaker_started_at = started_at },
  public_event (
        intro_speaker_changed (speaker s (suc s.intro_speaker_idx))
          s.settings.intro_seconds_per_player)
      ∷ [],
)

-- What both handlers of the introductions end with: the test is `idx < len(players) - 1`.
unfoldable pub advance_speaker : Time → State → State × List EventEnvelope
unfolding next_speaker transition_intro_to_day
advance_speaker now s =
    if ltb (suc s.intro_speaker_idx) (length s.players)
    then next_speaker now s
    else transition_intro_to_day now s

unfoldable pub handle_end_self_intro : PlayerId → Method
unfolding advance_speaker
handle_end_self_intro i e =
    let s = e.state in
    (do
      ensure_phase s (Phase.intro ∷ [])
      require (ltb s.intro_speaker_idx (length s.players)) (errf ErrorCode.validation)
      require (i === speaker s s.intro_speaker_idx) (errf ErrorCode.permission_denied)
      finish_with (advance_speaker e.clock s))
      e

unfoldable pub handle_advance_intro : PlayerId → Method
unfolding advance_speaker
handle_advance_intro host e =
    let s = e.state in
    (do
      ensure_phase s (Phase.intro ∷ [])
      ensure_host s host
      finish_with (advance_speaker e.clock s))
      e

unfoldable pub handle_toggle_voice : PlayerId → Bool → Method
handle_toggle_voice host on e =
    let s = e.state in
    (do
      ensure_host s host
      succeed (record s { settings = record s.settings { announcement_voice_on = on } })
          (public_event (voice_toggled on) ∷ []))
      e

unfoldable pub can_pause : Phase → Bool
can_pause p = is_phase p Phase.intro || (is_phase p Phase.day || is_phase p Phase.night)

-- A pending end may be paused in any phase.
pause_check : Option PendingGameEnd → State → Option Failure
pause_check (some p) s = none
pause_check none s =
    require
      (can_pause s.phase
        && not (is_phase s.phase Phase.night && is_step s.night_step NightStep.intro))
      (errf ErrorCode.wrong_phase)

unfoldable pub handle_pause_game : PlayerId → Method
unfolding pause_check can_pause
handle_pause_game host e =
    let s = e.state in
    (do
      ensure_host s host
      pause_check s.pending_game_end s
      (if s.paused
          then succeed s []
          else succeed (record s { paused = true; paused_at = e.clock })
              (public_event (game_paused s.phase) ∷ [])))
      e

abbrev shift_unless_zero : ℤ → Time → Time
shift_unless_zero shift t = if is_zero t then t else add t shift

abbrev shift_timer : Phase → ℤ → State → State
shift_timer Phase.intro shift s = record s {
  intro_speaker_started_at = add s.intro_speaker_started_at shift;
}
shift_timer Phase.day shift s = record s { deadline = shift_unless_zero shift s.deadline }
shift_timer Phase.night shift s = record s {
  night_step_deadline = shift_unless_zero shift s.night_step_deadline;
}
shift_timer _ shift s = s

abbrev shift_pending : ℤ → Option PendingGameEnd → Option PendingGameEnd
shift_pending shift none = none
shift_pending shift (some p) = some (record p { deadline = add p.deadline shift })

abbrev active_deadline : Phase → State → Time
active_deadline Phase.day s = s.deadline
active_deadline Phase.night s = s.night_step_deadline
active_deadline _ s = zero_time

-- `shift := now.Sub(e.state.PausedAt); if shift < 0 { shift = 0 }`
abbrev pause_length : Time → State → ℤ
pause_length now s = ℤ.pos (pos_part (sub now s.paused_at))

unfoldable pub resume : Time → State → State
resume now s =
    let shift = pause_length now s in
    let t = shift_timer s.phase shift s in
    record t {
      pending_game_end = shift_pending shift s.pending_game_end;
      paused = false;
      paused_at = zero_time;
      last_tick_at = now;
    }

unfoldable pub handle_resume_game : PlayerId → Method
unfolding resume
handle_resume_game host e =
    let s = e.state in
    let t = resume e.clock s in
    (do
      ensure_host s host
      (if s.paused
          then succeed t (public_event (game_resumed s.phase (active_deadline s.phase t)) ∷ [])
          else succeed s []))
      e

unfoldable pub handle_force_end : PlayerId → Method
handle_force_end host e =
    let s = e.state in
    (do
      ensure_host s host
      require (not (is_phase s.phase Phase.end)) (errf ErrorCode.wrong_phase)
      succeed
          (record s {
            pending_game_end = none;
            phase = Phase.end;
            end_reason = some EndReason.host_force_end;
            winner = none;
          })
          (public_event (game_ended none EndReason.host_force_end s.players) ∷ []))
      e
