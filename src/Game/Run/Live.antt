-- ===== src/Game/Run/Live.antt =====
-- Time moves a game on: no phase that the clock drives lasts for ever (tick.go).
use mafia_game_party.Prelude.{
  true, ℕ, zero, suc, ◌+◌, ◌*◌, ◌≤◌, ◌<◌, false, some, pos_part, neg_part, length, ◌≡◌, ◌≢◌, inl,
  inr, arith, Option-cases,
}
use mafia_game_party.Prelude.Time.{Time, zero_time, add, seconds}
use mafia_game_party.Game.Types.{Phase, NightStep, night_step_seconds}
use mafia_game_party.Game.State.{State, PendingGameEnd}
use mafia_game_party.Game.Rand.{Rng}
use mafia_game_party.Game.Engine.{Engine, set_state}
use mafia_game_party.Game.End.{fire_pending_end}
use mafia_game_party.Game.Night.{begin_night_step, next_night_step, resolve_night}
use mafia_game_party.Game.Lifecycle.{next_speaker, transition_intro_to_day}
use mafia_game_party.Game.Tick.{
  intro_loop, tick_intro, tick_day, expire_step, night_loop, tick_night, tick_phase, tick,
}
use mafia_game_party.Game.Night.Outcome.{resolve_night_lem}
use mafia_game_party.Game.Invariant.Tick.{end_step-Base}
use mafia_game_party.Game.Invariant.Defs.{Base, Inv, names_winner}

-- How long one speaker has.
abbrev turn : State → ℕ
turn s = pos_part (seconds s.settings.intro_seconds_per_player)

intro_loop-ends :
    (fuel : ℕ) (now : Time) (s : State)
    → length s.players ≤ suc fuel + s.intro_speaker_idx
    → s.intro_speaker_started_at + suc fuel * turn s ≤ now
    → (intro_loop (suc fuel) now s).0.phase ≡ Phase.day
unfolding intro_loop next_speaker transition_intro_to_day
intro_loop-ends zero now s l h = ground arith
intro_loop-ends (suc fuel) now s l h =
    let per_player = seconds s.settings.intro_seconds_per_player in
    let s' = (next_speaker (add s.intro_speaker_started_at per_player) s).0 in
    ground (arith, intro_loop-ends fuel now s')

-- No step of the night has a negative duration.
abbrev pub Steady : State → Type 0
Steady s =
    (neg_part (seconds (night_step_seconds s.settings NightStep.mafia)) ≡ 0)
    × (neg_part (seconds (night_step_seconds s.settings NightStep.police)) ≡ 0)
    × (neg_part (seconds (night_step_seconds s.settings NightStep.doctor)) ≡ 0)

abbrev span : State → NightStep → ℕ
span s step = pos_part (seconds (night_step_seconds s.settings step))

-- How long the steps of the night after a step last.
unfoldable rest_of_night : State → NightStep → ℕ
rest_of_night s NightStep.intro =
    span s NightStep.mafia + span s NightStep.police + span s NightStep.doctor
rest_of_night s NightStep.mafia = span s NightStep.police + span s NightStep.doctor
rest_of_night s NightStep.police = span s NightStep.doctor
rest_of_night s NightStep.doctor = 0
rest_of_night s NightStep.unset = 0
rest_of_night s NightStep.resolved = 0

-- The rounds that the loop still takes.
unfoldable rounds : NightStep → ℕ
rounds NightStep.intro = 4
rounds NightStep.mafia = 3
rounds NightStep.police = 2
rounds NightStep.doctor = 1
rounds NightStep.unset = 1
rounds NightStep.resolved = 1

rounds_le : (s : NightStep) → rounds s ≤ 4
unfolding rounds
rounds_le s = ground arith

begin_night_step-Base :
    (step : NightStep) (at : Time) (s : State) → Base s → Base (begin_night_step step at s).0
unfolding begin_night_step
begin_night_step-Base step at s b = ground arith

module _ (R : Rng) where
  resolved-day :
      (e : Engine)
      → Base e.state
      → (resolve_night R (
          set_state
            (record e.state { night_step = NightStep.unset; night_step_deadline = zero_time })
            e)).0.state.phase
        ≡ Phase.day
  resolved-day e b =
      let e' =
        set_state (record e.state { night_step = NightStep.unset; night_step_deadline = zero_time })
          e in
      ground (arith, resolve_night_lem R e' (end_step-Base e.state b))

  night_loop-ends :
      (fuel : ℕ) (now : Time) (e : Engine)
      → Base e.state
      → Steady e.state
      → rounds e.state.night_step ≤ fuel
      → e.state.night_step ≢ NightStep.unset
      → 0 < e.state.night_step_deadline
      → e.state.night_step_deadline + rest_of_night e.state e.state.night_step ≤ now
      → (night_loop R fuel now e).0.state.phase ≡ Phase.day
  unfolding night_loop rounds next_night_step rest_of_night begin_night_step expire_step
  night_loop-ends zero now e b st r u d h = ground arith
  night_loop-ends (suc fuel) now e b st r u d h =
      let s' =
        (begin_night_step (next_night_step e.state.night_step) e.state.night_step_deadline
          e.state).0 in
      ground (
        arith,
        resolved-day e b,
        night_loop-ends fuel now (set_state s' e) (
            begin_night_step-Base (next_night_step e.state.night_step) e.state.night_step_deadline
              e.state b),
      )

-- The phase is one that the clock ends: an introduction, a discussion, or a night with a step.
pub data IsTimed (s : State) : Type 0 where
  introducing : s.phase ≡ Phase.intro → IsTimed s
  discussing : s.phase ≡ Phase.day → IsTimed s
  sleeping :
      s.phase ≡ Phase.night
      → Steady s
      → s.night_step ≢ NightStep.unset
      → 0 < s.night_step_deadline
      → IsTimed s

-- By when the clock ends the phase: every speaker has had a turn, the discussion is over, or all the
-- steps of the night are.
unfoldable pub latest_end : State → Time
unfolding rest_of_night
latest_end s = elim s.phase [
  | Phase.intro ↦ s.intro_speaker_started_at + suc (length s.players) * turn s
  | Phase.day ↦ s.deadline
  | Phase.night ↦ s.night_step_deadline + rest_of_night s s.night_step
  | _ ↦ 0
]

tick_day-ends :
    (now prev : Time) (s : State) → s.deadline ≤ now → (tick_day now prev s).0.phase ≡ Phase.vote
unfolding tick_day
tick_day-ends now prev s h = ground arith

fired-ended :
    (p : PendingGameEnd) (now : Time) (e : Engine)
    → names_winner (some p) ≡ true
    → (fire_pending_end p now e).0.state.phase ≡ Phase.end
unfolding fire_pending_end
fired-ended p now e w = ground arith

module _ (R : Rng) where
  tick_phase-ends :
      (now prev : Time) (e : Engine)
      → Base e.state
      → IsTimed e.state
      → latest_end e.state ≤ now
      → (tick_phase R e.state.phase now prev e).0.state.phase ≢ e.state.phase
  unfolding tick_phase tick_intro tick_night latest_end
  tick_phase-ends now prev e b (introducing p) h =
      ground (arith, intro_loop-ends (length e.state.players) now e.state)
  tick_phase-ends now prev e b (discussing p) h = ground (arith, tick_day-ends now prev e.state)
  tick_phase-ends now prev e b (sleeping p st u d) h =
      ground (arith, night_loop-ends R 4 now e b st (rounds_le e.state.night_step) u d)

  touched-IsTimed : (now : Time) (s : State) → IsTimed s → IsTimed (record s { last_tick_at = now })
  touched-IsTimed now s (introducing p) = introducing p
  touched-IsTimed now s (discussing p) = discussing p
  touched-IsTimed now s (sleeping p st u d) = sleeping p st u d

  touched-Base : (now : Time) (s : State) → Base s → Base (record s { last_tick_at = now })
  touched-Base now s b = ground arith

  IsTimed-open : (s : State) → IsTimed s → s.phase ≢ Phase.end
  IsTimed-open s (introducing p) = λ h. cc
  IsTimed-open s (discussing p) = λ h. cc
  IsTimed-open s (sleeping p st u d) = λ h. cc

  -- Suppose that a state meets the invariant, the game is not paused, and its phase is an introduction,
  -- a discussion, or a night with a step that has a deadline, and with steps of no negative duration.
  -- Then each tick that is later than the last one, and not before the end of the turns of as many
  -- speakers as there are players and one more, of the discussion, or of the night's steps, leaves the
  -- phase.
  pub timed_phase_ends :
      (now : Time) (e : Engine)
      → Inv e.state
      → e.state.paused ≡ false
      → IsTimed e.state
      → e.state.last_tick_at < now
      → latest_end e.state ≤ now
      → (tick R now e).0.state.phase ≢ e.state.phase
  unfolding tick latest_end
  timed_phase_ends now e v u t l h =
      let e' = set_state (record e.state { last_tick_at = now }) e in
      let progress =
        tick_phase-ends now e.state.last_tick_at e' (touched-Base now e.state v.base)
          (touched-IsTimed now e.state t) h in
      elim (Option-cases e.state.pending_game_end) [
        | inl n ↦ rw (n, tick) (ground (arith, progress))
        | inr (p, n) ↦
            rw (n, tick)
              (ground (
                arith,
                progress,
                IsTimed-open e.state t,
                fired-ended p now e (rw n at v.base.winner_known),
              ))
      ]
