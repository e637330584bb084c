-- ===== src/Game/Tick/Told.antt =====
-- The events of a tick are addressed to their audience.
use mafia_game_party.Prelude.{ℕ, zero, suc, Option, none, some, List, [], ◌∷◌, refl, arith, length}
use mafia_game_party.Prelude.Time.{Time, zero_time, seconds, add}
use mafia_game_party.Game.Types.{Phase, NightStep}
use mafia_game_party.Game.State.{State, PendingGameEnd}
use mafia_game_party.Game.Event.{EventEnvelope}
use mafia_game_party.Game.Rand.{Rng}
use mafia_game_party.Game.Engine.{Engine, Result, ok, err, Method, set_state}
use mafia_game_party.Game.End.{fire_pending_end}
use mafia_game_party.Game.Night.{begin_night_step, next_night_step}
use mafia_game_party.Game.Night.Told.{begin_night_step-Addressed, resolve_night-Addressed}
use mafia_game_party.Game.Vote.{transition_day_to_vote}
use mafia_game_party.Game.Vote.Told.{transition_day_to_vote-Addressed}
use mafia_game_party.Game.Lifecycle.{transition_intro_to_day, next_speaker}
use mafia_game_party.Game.Audience.{audience, Addressed, IsAddressed, Addressed-append}
use mafia_game_party.Game.Tick.{
  intro_loop, tick_intro, threshold_events, tick_day, prepend, expire_step, night_loop, tick_night,
  tick_phase, progress, tick_pending, tick, discussion_timer_thresholds,
}

pub next_speaker-Addressed : (t : Time) (s : State) → Addressed (next_speaker t s).1
unfolding next_speaker Addressed audience
next_speaker-Addressed t s = (refl, tt)

pub transition_intro_to_day-Addressed :
    (t : Time) (s : State) → Addressed (transition_intro_to_day t s).1
unfolding transition_intro_to_day Addressed audience
transition_intro_to_day-Addressed t s = (refl, tt)

nothing_told : Addressed []
unfolding Addressed
nothing_told = tt

intro_loop-Addressed : (fuel : ℕ) (now : Time) (s : State) → Addressed (intro_loop fuel now s).1
unfolding intro_loop
intro_loop-Addressed zero now s = nothing_told
intro_loop-Addressed (suc fuel) now s =
    let t = add s.intro_speaker_started_at (seconds s.settings.intro_seconds_per_player) in
    let (s', turned) = next_speaker t s in
    ground (
      arith,
      nothing_told,
      transition_intro_to_day-Addressed now s,
      Addressed-append turned (intro_loop fuel now s').1 (next_speaker-Addressed t s)
          (intro_loop-Addressed fuel now s'),
    )

threshold_events-Addressed :
    (now prev deadline : Time) (ths : List ℕ) → Addressed (threshold_events now prev deadline ths)
unfolding threshold_events Addressed audience
threshold_events-Addressed now prev deadline [] = tt
threshold_events-Addressed now prev deadline (th ∷ ths) =
    ground (arith, threshold_events-Addressed now prev deadline ths)

tick_day-Addressed : (now prev : Time) (s : State) → Addressed (tick_day now prev s).1
unfolding tick_day
tick_day-Addressed now prev s =
    let events = threshold_events now prev s.deadline discussion_timer_thresholds in
    let told = threshold_events-Addressed now prev s.deadline discussion_timer_thresholds in
    ground (
      arith,
      told,
      Addressed-append events (transition_day_to_vote now s).1 told
          (transition_day_to_vote-Addressed now s),
    )

abbrev Answered : Engine × Result (List EventEnvelope) → Type 0
Answered x = IsAddressed x.1

nothing_answered : IsAddressed (ok [])
unfolding IsAddressed Addressed
nothing_answered = tt

prepend-Addressed :
    (events : List EventEnvelope) (x : Engine × Result (List EventEnvelope))
    → Addressed events
    → Answered x
    → Answered (prepend events x)
unfolding IsAddressed
prepend-Addressed events (e, ok more) p q = Addressed-append events more p q
prepend-Addressed events (e, err f) p q = tt

module _ (R : Rng) where
  expire_step-Addressed :
      (next : NightStep) (go : Method) (e : Engine)
      → ((g : Engine) → Answered (go g))
      → Answered (expire_step R next go e)
  unfolding expire_step
  expire_step-Addressed next go e h =
      let s = e.state in
      let (s', events) = begin_night_step next s.night_step_deadline s in
      let over = record s { night_step = NightStep.unset; night_step_deadline = zero_time } in
      ground (
        arith,
        resolve_night-Addressed R (set_state over e),
        prepend-Addressed events (go (set_state s' e))
            (begin_night_step-Addressed next s.night_step_deadline s) (h (set_state s' e)),
      )

  night_loop-Addressed : (fuel : ℕ) (now : Time) (e : Engine) → Answered (night_loop R fuel now e)
  unfolding night_loop
  night_loop-Addressed zero now e = nothing_answered
  night_loop-Addressed (suc fuel) now e = ground (
    arith,
    nothing_answered,
    expire_step-Addressed (next_night_step e.state.night_step) (night_loop R fuel now) e
        (λ g. night_loop-Addressed fuel now g),
  )

  tick_phase-Addressed :
      (p : Phase) (now prev : Time) (e : Engine) → Answered (tick_phase R p now prev e)
  unfolding tick_phase tick_intro tick_night IsAddressed Addressed
  tick_phase-Addressed Phase.intro now prev e =
      intro_loop-Addressed (suc (length e.state.players)) now e.state
  tick_phase-Addressed Phase.day now prev e = tick_day-Addressed now prev e.state
  tick_phase-Addressed Phase.night now prev e = night_loop-Addressed 4 now e
  tick_phase-Addressed Phase.unset now prev e = tt
  tick_phase-Addressed Phase.lobby now prev e = tt
  tick_phase-Addressed Phase.vote now prev e = tt
  tick_phase-Addressed Phase.recount now prev e = tt
  tick_phase-Addressed Phase.end now prev e = tt

  fire-Addressed :
      (p : PendingGameEnd) (now : Time) (e : Engine) → Answered (fire_pending_end p now e)
  unfolding fire_pending_end IsAddressed Addressed audience
  fire-Addressed p now e = ground arith

  progress-Addressed : (now : Time) (e : Engine) → Answered (progress R now e)
  progress-Addressed now e =
      tick_phase-Addressed e.state.phase now e.state.last_tick_at
        (set_state (record e.state { last_tick_at = now }) e)

  tick_pending-Addressed :
      (p : Option PendingGameEnd) (now : Time) (e : Engine) → Answered (tick_pending R p now e)
  tick_pending-Addressed none now e = progress-Addressed now e
  tick_pending-Addressed (some p) now e =
      ground (arith, progress-Addressed now e, fire-Addressed p now e)

  pub tick-Addressed : (now : Time) (e : Engine) → Answered (tick R now e)
  unfolding tick
  tick-Addressed now e =
      ground (arith, nothing_answered, tick_pending-Addressed e.state.pending_game_end now e)
