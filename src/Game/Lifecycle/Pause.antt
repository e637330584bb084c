-- ===== src/Game/Lifecycle/Pause.antt =====
-- A pause stops the clock of the game (handlers_lifecycle.go).
use mafia_game_party.Prelude.{
  ◌≤◌, true, false, Option, none, some, List, ◌≡◌, ap, sym, subst, ◌∙◌, arith, if◌then◌else◌, ℤ,
  PlayerId,
}
use mafia_game_party.Prelude.Time.{Time, zero_time, is_zero, sub}
use mafia_game_party.Game.Types.{Phase}
use mafia_game_party.Game.State.{State, PendingGameEnd}
use mafia_game_party.Game.Validation.{ensure_host}
use mafia_game_party.Game.Engine.{Engine, ok}
use mafia_game_party.Game.Event.{EventEnvelope}
use mafia_game_party.Game.Lifecycle.{handle_pause_game, handle_resume_game, resume}

-- The time that is left until an instant that is set, as a duration.
abbrev pub left : Time → Time → ℤ
left t now = if is_zero t then sub zero_time zero_time else sub t now

abbrev pub end_left : Option PendingGameEnd → Time → ℤ
end_left none now = sub zero_time zero_time
end_left (some p) now = sub p.deadline now

-- What the phase's timer shows: how long the speaker has spoken, or what is left of the discussion or
-- of the night's step.
abbrev pub timer_in : Phase → State → Time → ℤ
timer_in Phase.intro s now = sub now s.intro_speaker_started_at
timer_in Phase.day s now = left s.deadline now
timer_in Phase.night s now = left s.night_step_deadline now
timer_in _ s now = sub zero_time zero_time

unfoldable pub timer : State → Time → ℤ
timer s now = timer_in s.phase s now

-- The timer and what is left until a pending end are in the second state and at the second time what
-- they are in the first.
abbrev pub KeepsTime : State → Time → State → Time → Type 0
KeepsTime s now t later =
    (timer t later ≡ timer s now)
    × (end_left t.pending_game_end later ≡ end_left s.pending_game_end now)

resume-KeepsTime :
    (s : State) (later : Time)
    → s.paused_at ≤ later
    → KeepsTime s s.paused_at (resume later s) later
unfolding resume timer
resume-KeepsTime s later le = (ground arith, ground arith)

abbrev halted : Engine → State
halted e = record e.state { paused = true; paused_at = e.clock }

halted-timer : (e : Engine) (now : Time) → timer (halted e) now ≡ timer e.state now
unfolding timer
halted-timer e now = ground arith

resume-running :
    (s : State) (later : Time)
    → let t = resume later s in (t.paused ≡ false) × (t.last_tick_at ≡ later) × (t.phase ≡ s.phase)
unfolding resume
resume-running s later = ground arith

module _ (host : PlayerId) (e : Engine) (later : Time) where
  pause_effect :
      {events : List EventEnvelope}
      → e.state.paused ≡ false
      → (handle_pause_game host e).1 ≡ ok events
      → (ensure_host e.state host ≡ none)
        × ((handle_pause_game host e).0 ≡ record e { state = halted e })
  unfolding handle_pause_game
  pause_effect r h = ground arith

  resume_effect :
      ensure_host e.state host ≡ none
      → (handle_resume_game host (record e { state = halted e; clock = later })).0.state
        ≡ resume later (halted e)
  unfolding handle_resume_game ensure_host
  resume_effect h = ground arith

  abbrev pub resumed : State
  resumed =
      (handle_resume_game host (record (handle_pause_game host e).0 { clock = later })).0.state

  -- If the host pauses a running game, and resumes it no earlier, then the speaker's time, the time to
  -- the end of the discussion or of the night's step, whichever the phase has, and the time to a
  -- pending end are what they were at the pause; the game runs again in the same phase, and the time of
  -- the resumption counts as its last tick.
  pub pause-KeepsTime :
      {events : List EventEnvelope}
      → e.state.paused ≡ false
      → (handle_pause_game host e).1 ≡ ok events
      → e.clock ≤ later
      → (resumed.paused ≡ false)
        × (resumed.last_tick_at ≡ later)
        × (resumed.phase ≡ e.state.phase)
        × KeepsTime e.state e.clock resumed later
  pause-KeepsTime r h le =
      let (host_ok, paused) = pause_effect r h in
      let (running, last, phase) = resume-running (halted e) later in
      let same : resumed ≡ resume later (halted e) =
        ap (λ (x : Engine). (handle_resume_game host (record x { clock = later })).0.state) paused
        ∙ resume_effect host_ok in
      let kept : KeepsTime e.state e.clock (resume later (halted e)) later =
        rw (← halted-timer e e.clock) (resume-KeepsTime (halted e) later le) in
      subst
        (λ (s : State).
          (s.paused ≡ false)
          × (s.last_tick_at ≡ later)
          × (s.phase ≡ e.state.phase)
          × KeepsTime e.state e.clock s later)
        (sym same) (running, last, phase, kept)
