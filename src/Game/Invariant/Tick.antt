-- ===== src/Game/Invariant/Tick.antt =====
-- A tick keeps the invariant, and does not fail (tick.go).
use mafia_game_party.Prelude.{
  ℕ, zero, suc, true, some, List, ◌≡◌, ◌≢◌, arith, inl, inr, length, Option-cases,
}
use mafia_game_party.Prelude.Time.{Time, zero_time, add, seconds}
use mafia_game_party.Game.Types.{Phase, NightStep}
use mafia_game_party.Game.State.{State, PendingGameEnd}
use mafia_game_party.Game.Event.{EventEnvelope}
use mafia_game_party.Game.Error.{Failure}
use mafia_game_party.Game.Rand.{Rng}
use mafia_game_party.Game.Engine.{Engine, Result, err, set_state}
use mafia_game_party.Game.End.{fire_pending_end}
use mafia_game_party.Game.Night.{begin_night_step, next_night_step}
use mafia_game_party.Game.Lifecycle.{next_speaker}
use mafia_game_party.Game.Tick.{
  intro_loop, tick_intro, tick_day, night_loop, tick_night, tick_phase, tick,
}
use mafia_game_party.Game.Invariant.Defs.{Base, Inv, names_winner}
use mafia_game_party.Game.Invariant.Night.{resolve_night-Inv}

-- The state keeps the invariant, and the result is no error.
abbrev pub IsSafe : Engine × Result (List EventEnvelope) → Type 0
IsSafe r = Inv r.0.state × ((f : Failure) → r.1 ≢ err f)

intro_loop-Inv :
    (fuel : ℕ) (now : Time) (s : State)
    → Inv s
    → s.phase ≡ Phase.intro
    → Inv (intro_loop fuel now s).0
unfolding intro_loop
intro_loop-Inv zero now s v h = v
intro_loop-Inv (suc fuel) now s v h =
    let per_player = seconds s.settings.intro_seconds_per_player in
    let s' = (next_speaker (add s.intro_speaker_started_at per_player) s).0 in
    let v' : Inv s' = unfold next_speaker in ground arith in
    ground (arith, intro_loop-Inv fuel now s' v' h)

tick_day-Inv :
    (now prev : Time) (s : State) → Inv s → s.phase ≡ Phase.day → Inv (tick_day now prev s).0
unfolding tick_day
tick_day-Inv now prev s v h = ground arith

fire_pending_end-IsSafe :
    (p : PendingGameEnd) (now : Time) (e : Engine)
    → Inv e.state
    → names_winner (some p) ≡ true
    → IsSafe (fire_pending_end p now e)
unfolding fire_pending_end
fire_pending_end-IsSafe p now e v h = ground arith

pub end_step-Base :
    (s : State)
    → Base s
    → Base (record s { night_step = NightStep.unset; night_step_deadline = zero_time })
end_step-Base s b = ground arith

module _ (R : Rng) where
  begin_night_step-Inv :
      (step : NightStep) (at : Time) (s : State) → Inv s → Inv (begin_night_step step at s).0
  unfolding begin_night_step
  begin_night_step-Inv step at s v = ground arith

  night_loop-IsSafe :
      (fuel : ℕ) (now : Time) (e : Engine) → Inv e.state → IsSafe (night_loop R fuel now e)
  unfolding night_loop
  night_loop-IsSafe zero now e v = (v, λ f h. cc)
  night_loop-IsSafe (suc fuel) now e v = ground (
    arith,
    begin_night_step-Inv (next_night_step e.state.night_step) e.state.night_step_deadline e.state v,
    night_loop-IsSafe fuel now (
        set_state
          (begin_night_step (next_night_step e.state.night_step) e.state.night_step_deadline
            e.state).0
          e),
    resolve_night-Inv R
        (set_state
          (record e.state { night_step = NightStep.unset; night_step_deadline = zero_time }) e)
        (end_step-Base e.state v.base),
  )

  tick_phase-IsSafe :
      (now prev : Time) (e : Engine) → Inv e.state → IsSafe (tick_phase R e.state.phase now prev e)
  unfolding tick_phase tick_intro tick_night
  tick_phase-IsSafe now prev e v = ground (
    arith,
    intro_loop-Inv (suc (length e.state.players)) now e.state v,
    tick_day-Inv now prev e.state v,
    night_loop-IsSafe 4 now e v,
  )

  touch-Inv : (now : Time) (s : State) → Inv s → Inv (record s { last_tick_at = now })
  touch-Inv now s v = ground arith

  -- From a state that meets the invariant a tick at any time returns no error, and leaves a state
  -- that meets it.
  pub tick-IsSafe :
      (now : Time) (e : Engine)
      → Inv e.state
      → Inv (tick R now e).0.state × ((f : Failure) → (tick R now e).1 ≢ err f)
  unfolding tick
  tick-IsSafe now e v =
      let progress =
        tick_phase-IsSafe now e.state.last_tick_at
          (set_state (record e.state { last_tick_at = now }) e) (touch-Inv now e.state v) in
      elim (Option-cases e.state.pending_game_end) [
        | inl n ↦ rw (n, tick) (ground (arith, progress))
        | inr (p, n) ↦
            rw (n, tick)
              (ground
                (arith, progress, fire_pending_end-IsSafe p now e v (rw n at v.base.winner_known)))
      ]
