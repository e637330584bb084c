-- ===== src/Game/Tick.antt =====
-- internal/game/tick.go: the transitions that time drives.
pub mod Twice
pub mod Fuel
pub mod Told
use mafia_game_party.Prelude.{
  ℕ, zero, suc, ◌-◌, ◌*◌, Bool, true, false, not, ◌&&◌, ◌||◌, Option, none, some, List, [], ◌∷◌,
  ◌++◌, if◌then◌else◌, length, leb, ltb_ℤ,
}
use mafia_game_party.Prelude.Time.{Time, zero_time, is_zero, add, sub, seconds, before, after}
use mafia_game_party.Game.Types.{Phase, NightStep, is_step}
use mafia_game_party.Game.State.{State, PendingGameEnd}
use mafia_game_party.Game.Event.{EventEnvelope, public_event, discussion_timer_tick}
use mafia_game_party.Game.Error.{Failure}
use mafia_game_party.Game.Rand.{Rng}
use mafia_game_party.Game.Engine.{Engine, Result, ok, err, Method, set_state}
use mafia_game_party.Game.End.{fired_state, fire_pending_end}
use mafia_game_party.Game.Night.{begin_night_step, next_night_step, resolve_night}
use mafia_game_party.Game.Vote.{finish_with, transition_day_to_vote}
use mafia_game_party.Game.Lifecycle.{transition_intro_to_day, next_speaker}

-- The `for` loop, with fuel for its rounds.
unfoldable pub intro_loop : ℕ → Time → State → State × List EventEnvelope
unfolding next_speaker transition_intro_to_day
intro_loop zero now s = (s, [])
intro_loop (suc fuel) now s =
    let per_player = seconds s.settings.intro_seconds_per_player in
    let (s', turned) = next_speaker (add s.intro_speaker_started_at per_player) s in
    let rest = intro_loop fuel now s' in
    if ltb_ℤ (sub now s.intro_speaker_started_at) per_player
    then (s, [])
    else if leb (length s.players) (suc s.intro_speaker_idx)
    then transition_intro_to_day now s
    else (rest.0, turned ++ rest.1)

-- Each round but the last moves on to one more player.
unfoldable pub tick_intro : Time → State → State × List EventEnvelope
unfolding intro_loop
tick_intro now s = intro_loop (suc (length s.players)) now s

-- `deadline.Add(-time.Duration(th) * time.Second)`
abbrev threshold_instant : Time → ℕ → Time
threshold_instant deadline th = deadline - th * 1_000_000_000

unfoldable pub threshold_events : Time → Time → Time → List ℕ → List EventEnvelope
threshold_events now prev deadline [] = []
threshold_events now prev deadline (th ∷ ths) =
    let at = threshold_instant deadline th in
    let rest = threshold_events now prev deadline ths in
    if not (before now at) && before prev at
    then public_event (discussion_timer_tick th) ∷ rest
    else rest

abbrev discussion_timer_thresholds : List ℕ
discussion_timer_thresholds = 30 ∷ 10 ∷ 0 ∷ []

unfoldable pub tick_day : Time → Time → State → State × List EventEnvelope
unfolding threshold_events transition_day_to_vote
tick_day now prev s =
    let events = threshold_events now prev s.deadline discussion_timer_thresholds in
    if before now s.deadline
    then (s, events)
    else let (s', more) = transition_day_to_vote now s in (s', events ++ more)

abbrev prepend :
    List EventEnvelope → Engine × Result (List EventEnvelope) → Engine × Result (List EventEnvelope)
prepend events (e, ok more) = (e, ok (events ++ more))
prepend events (e, err f) = (e, err f)

module _ (R : Rng) where
  -- What one round does once the step's deadline has passed; `go` is the rest of the loop.
  unfoldable pub expire_step : NightStep → Method → Method
  expire_step next go e =
      let s = e.state in
      let (s', events) = begin_night_step next s.night_step_deadline s in
      if is_step next NightStep.resolved
      then resolve_night R
          (set_state (record s { night_step = NightStep.unset; night_step_deadline = zero_time }) e)
      else prepend events (go (set_state s' e))

  unfoldable pub night_loop : ℕ → Time → Method
  unfolding expire_step
  night_loop zero now e = (e, ok [])
  night_loop (suc fuel) now e =
      let s = e.state in
      let rest = expire_step (next_night_step s.night_step) (night_loop fuel now) e in
      if is_step s.night_step NightStep.unset || is_zero s.night_step_deadline
      then (e, ok [])
      else if before now s.night_step_deadline
      then (e, ok [])
      else rest

  -- Four rounds lead from the first step of a night to its end.
  unfoldable pub tick_night : Time → Method
  unfolding night_loop
  tick_night now e = night_loop 4 now e

  unfoldable pub tick_phase : Phase → Time → Time → Method
  tick_phase Phase.intro now prev e = finish_with (tick_intro now e.state) e
  tick_phase Phase.day now prev e = finish_with (tick_day now prev e.state) e
  tick_phase Phase.night now prev e = tick_night now e
  tick_phase _ now prev e = (e, ok [])

  abbrev progress : Time → Method
  progress now e =
      let s = e.state in
      tick_phase s.phase now s.last_tick_at (set_state (record s { last_tick_at = now }) e)

  abbrev tick_pending : Option PendingGameEnd → Time → Method
  tick_pending none now e = progress now e
  tick_pending (some p) now e =
      if before now p.deadline then progress now e else fire_pending_end p now e

  unfoldable pub tick : Time → Method
  tick now e =
      if e.state.paused
      then (e, ok [])
      else if after now e.state.last_tick_at
      then tick_pending e.state.pending_game_end now e
      else (e, ok [])

  is_due : Option PendingGameEnd → Time → Bool
  is_due none now = false
  is_due (some p) now = not (before now p.deadline)

  -- The state that `Tick` returns: a copy of the state that it leaves, but where a pending end is due
  -- the copy that `firePendingEnd` has made before the game's end.
  unfoldable pub tick_state : Time → Engine → State
  unfolding is_due
  tick_state now e =
      let s = e.state in
      if not s.paused && (after now s.last_tick_at && is_due s.pending_game_end now)
      then fired_state now s
      else (tick now e).0.state
