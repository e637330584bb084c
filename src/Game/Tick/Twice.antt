-- ===== src/Game/Tick/Twice.antt =====
-- A tick repeated (tick.go).
use mafia_game_party.Prelude.{
  ℕ, zero, suc, ◌≤◌, true, [], ◌≡◌, refl, arith, inl, inr, length, ◌⊎◌, Option-cases,
}
use mafia_game_party.Prelude.Time.{Time, zero_time, add, seconds}
use mafia_game_party.Game.Types.{Phase, NightStep}
use mafia_game_party.Game.State.{State, PendingGameEnd}
use mafia_game_party.Game.Rand.{Rng}
use mafia_game_party.Game.Engine.{Engine, ok, set_state}
use mafia_game_party.Game.End.{fire_pending_end}
use mafia_game_party.Game.Night.{
  begin_night_step, next_night_step, resolve_night, night_victim, begin_day, schedule_end,
}
use mafia_game_party.Game.Night.Successor.{mark_dead-frame}
use mafia_game_party.Game.Lifecycle.{next_speaker}
use mafia_game_party.Game.Tick.{
  intro_loop, tick_intro, tick_day, night_loop, tick_night, tick_phase, tick,
}

intro_loop-last :
    (fuel : ℕ) (now : Time) (s : State)
    → now ≤ s.last_tick_at
    → now ≤ (intro_loop fuel now s).0.last_tick_at
unfolding intro_loop
intro_loop-last zero now s h = h
intro_loop-last (suc fuel) now s h =
    let per_player = seconds s.settings.intro_seconds_per_player in
    let s' = (next_speaker (add s.intro_speaker_started_at per_player) s).0 in
    let h' : now ≤ s'.last_tick_at = unfold next_speaker in ground arith in
    ground (arith, intro_loop-last fuel now s' h')

tick_day-last :
    (now prev : Time) (s : State)
    → now ≤ s.last_tick_at
    → now ≤ (tick_day now prev s).0.last_tick_at
unfolding tick_day
tick_day-last now prev s h = ground arith

begin_night_step-frame :
    (step : NightStep) (at : Time) (s : State)
    → (begin_night_step step at s).0.last_tick_at ≡ s.last_tick_at
unfolding begin_night_step
begin_night_step-frame step at s = refl

module _ (R : Rng) where
  resolve_night-last :
      (e : Engine) (now : Time)
      → now ≤ e.state.last_tick_at
      → now ≤ e.clock
      → now ≤ (resolve_night R e).0.state.last_tick_at
  unfolding resolve_night begin_day schedule_end
  resolve_night-last e now h c = elim (Option-cases (night_victim e.state)) [
    | inl n ↦ rw (n, resolve_night) (ground arith)
    | inr (v, n) ↦ ground (arith, mark_dead-frame R v e)
  ]

  night_loop-last :
      (fuel : ℕ) (now : Time) (e : Engine)
      → now ≤ e.state.last_tick_at
      → now ≤ e.clock
      → now ≤ (night_loop R fuel now e).0.state.last_tick_at
  unfolding night_loop
  night_loop-last zero now e h c = h
  night_loop-last (suc fuel) now e h c =
      let step = next_night_step e.state.night_step in
      let s' = (begin_night_step step e.state.night_step_deadline e.state).0 in
      let r : Engine =
        set_state (record e.state { night_step = NightStep.unset; night_step_deadline = zero_time })
          e in
      ground (
        arith,
        night_loop-last fuel now (set_state s' e)
            (rw (begin_night_step-frame step e.state.night_step_deadline e.state) h) c,
        resolve_night-last r now h c,
      )

  tick_phase-last :
      (p : Phase) (now prev : Time) (e : Engine)
      → now ≤ e.state.last_tick_at
      → now ≤ e.clock
      → now ≤ (tick_phase R p now prev e).0.state.last_tick_at
  unfolding tick_phase tick_intro tick_night
  tick_phase-last p now prev e h c = ground (
    arith,
    intro_loop-last (suc (length e.state.players)) now e.state h,
    tick_day-last now prev e.state h,
    night_loop-last 4 now e h c,
  )

  fire_pending_end-last :
      (p : PendingGameEnd) (now : Time) (e : Engine)
      → (fire_pending_end p now e).0.state.last_tick_at ≡ now
  unfolding fire_pending_end
  fire_pending_end-last p now e = ground arith

  -- After a tick that the clock has reached, the game is paused, or the tick's time is recorded.
  tick-last :
      (now : Time) (e : Engine)
      → now ≤ e.clock
      → ((tick R now e).0.state.paused ≡ true) ⊎ (now ≤ (tick R now e).0.state.last_tick_at)
  unfolding tick
  tick-last now e c =
      let progress =
        tick_phase-last e.state.phase now e.state.last_tick_at
          (set_state (record e.state { last_tick_at = now }) e) in
      elim (Option-cases e.state.pending_game_end) [
        | inl n ↦ rw (n, tick) (ground (arith, progress))
        | inr (p, n) ↦ rw (n, tick) (ground (arith, progress, fire_pending_end-last p now e))
      ]

  tick_stale :
      (now : Time) (e : Engine)
      → (e.state.paused ≡ true) ⊎ (now ≤ e.state.last_tick_at)
      → tick R now e ≡ (e, ok [])
  unfolding tick
  tick_stale now e h = ground arith

  -- If the clock has reached the time of a tick, the same tick once more does nothing: it leaves the
  -- engine as the first has left it, and it brings no event and no error.
  pub tick_twice :
      (now : Time) (e : Engine)
      → now ≤ e.clock
      → tick R now (tick R now e).0 ≡ ((tick R now e).0, ok [])
  tick_twice now e c = tick_stale now (tick R now e).0 (tick-last now e c)
