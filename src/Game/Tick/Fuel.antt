-- ===== src/Game/Tick/Fuel.antt =====
-- The loops of tick.go end: more rounds than those given change nothing.
use mafia_game_party.Prelude.{ℕ, zero, suc, ◌+◌, ◌≤◌, ◌<◌, ◌≡◌, arith, length}
use mafia_game_party.Prelude.Time.{Time, add, seconds}
use mafia_game_party.Game.Types.{NightStep}
use mafia_game_party.Game.State.{State}
use mafia_game_party.Game.Rand.{Rng}
use mafia_game_party.Game.Engine.{Engine, set_state}
use mafia_game_party.Game.Night.{begin_night_step, next_night_step}
use mafia_game_party.Game.Lifecycle.{next_speaker}
use mafia_game_party.Game.Tick.{intro_loop, tick_intro, night_loop, tick_night}

abbrev next : Time → State → State
next now s =
    (next_speaker (add s.intro_speaker_started_at (seconds s.settings.intro_seconds_per_player))
      s).0

-- A round looks at the rest only while there is one more speaker.
intro_loop_round :
    (m n : ℕ) (now : Time) (s : State)
    → (suc s.intro_speaker_idx < length s.players
        → intro_loop m now (next now s) ≡ intro_loop n now (next now s))
    → intro_loop (suc m) now s ≡ intro_loop (suc n) now s
unfolding intro_loop
intro_loop_round m n now s h = ground arith

intro_loop_enough :
    (fuel n : ℕ) (now : Time) (s : State)
    → fuel ≤ n
    → length s.players < suc fuel + s.intro_speaker_idx
    → intro_loop (suc n) now s ≡ intro_loop (suc fuel) now s
unfolding next_speaker
intro_loop_enough zero n now s le h = intro_loop_round n zero now s (λ lt. absurd (omega arith))
intro_loop_enough (suc fuel) zero now s le h = absurd (omega arith)
intro_loop_enough (suc fuel) (suc n) now s le h =
    intro_loop_round (suc n) (suc fuel) now s
      (λ lt. intro_loop_enough fuel n now (next now s) (omega arith) (omega arith))

-- The introductions of a tick come to their end: every number of rounds above the number of players
-- has the result of `tick_intro`.
pub tick_intro_total :
    (n : ℕ) (now : Time) (s : State) → length s.players < n → intro_loop n now s ≡ tick_intro now s
unfolding tick_intro
tick_intro_total zero now s h = absurd (omega arith)
tick_intro_total (suc n) now s h =
    intro_loop_enough (length s.players) n now s (omega arith) (omega arith)

-- The rounds that a night's step is from the end of the night.
unfoldable rounds : NightStep → ℕ
rounds NightStep.intro = 4
rounds NightStep.mafia = 3
rounds NightStep.police = 2
rounds NightStep.doctor = 1
rounds NightStep.unset = 1
rounds NightStep.resolved = 1

module _ (R : Rng) where
  abbrev onward : Engine → Engine
  onward e =
      let s = e.state in
      set_state (begin_night_step (next_night_step s.night_step) s.night_step_deadline s).0 e

  night_loop_round :
      (m n : ℕ) (now : Time) (e : Engine)
      → (1 < rounds e.state.night_step
          → night_loop R m now (onward e) ≡ night_loop R n now (onward e))
      → night_loop R (suc m) now e ≡ night_loop R (suc n) now e
  unfolding night_loop rounds next_night_step
  night_loop_round m n now e h = ground arith

  rounds-onward :
      (e : Engine)
      → 1 < rounds e.state.night_step
      → suc (rounds (onward e).state.night_step) ≡ rounds e.state.night_step
  unfolding rounds next_night_step begin_night_step
  rounds-onward e h = ground arith

  night_loop_enough :
      (fuel n : ℕ) (now : Time) (e : Engine)
      → fuel ≤ n
      → rounds e.state.night_step ≤ suc fuel
      → night_loop R (suc n) now e ≡ night_loop R (suc fuel) now e
  night_loop_enough zero n now e le h = night_loop_round n zero now e (λ lt. absurd (omega arith))
  night_loop_enough (suc fuel) zero now e le h = absurd (omega arith)
  night_loop_enough (suc fuel) (suc n) now e le h = night_loop_round (suc n) (suc fuel) now e (λ lt.
      night_loop_enough fuel n now (onward e) (omega arith) (omega (arith, rounds-onward e lt)))

  rounds_le : (s : NightStep) → rounds s ≤ 4
  unfolding rounds
  rounds_le s = ground arith

  -- The night's steps of a tick come to their end: every number of rounds from four on has the
  -- result of `tick_night`.
  pub tick_night_total :
      (n : ℕ) (now : Time) (e : Engine) → 4 ≤ n → night_loop R n now e ≡ tick_night R now e
  unfolding tick_night
  tick_night_total zero now e h = absurd (omega arith)
  tick_night_total (suc n) now e h =
      night_loop_enough 3 n now e (omega arith) (rounds_le e.state.night_step)
