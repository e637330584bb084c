-- ===== src/Game/Night/Told.antt =====
-- The events of a night are addressed to their audience.
use mafia_game_party.Prelude.{
  Option, none, some, List, [], ◌∷◌, PlayerId, refl, arith, Option-cases, inl, inr,
}
use mafia_game_party.Prelude.Time.{Time}
use mafia_game_party.Game.Types.{NightStep}
use mafia_game_party.Game.State.{State, find_player, kill, living_mafia_ids}
use mafia_game_party.Game.Event.{EventEnvelope}
use mafia_game_party.Game.Rand.{Rng}
use mafia_game_party.Game.Engine.{Engine, Result, ok, err, set_state}
use mafia_game_party.Game.Audience.{audience, Addressed, IsAddressed}
use mafia_game_party.Game.Night.{
  enter_night, begin_night_step, mark_dead, reassign_mafia_representative, reassign_among,
  resolve_night, resolve_victim, finish_night, night_victim,
}

pub begin_night_step-Addressed :
    (step : NightStep) (t : Time) (s : State) → Addressed (begin_night_step step t s).1
unfolding begin_night_step Addressed audience
begin_night_step-Addressed step t s = (refl, tt)

pub enter_night-Addressed : (now : Time) (s : State) → Addressed (enter_night now s).1
unfolding enter_night Addressed audience
enter_night-Addressed now s = (refl, (refl, tt))

module _ (R : Rng) where
  reassign_among-Addressed :
      (is : List PlayerId) (old : PlayerId) (e : Engine) → Addressed (reassign_among R is old e).1
  unfolding reassign_among Addressed audience
  reassign_among-Addressed [] old e = tt
  reassign_among-Addressed (i ∷ is) old e = (refl, tt)

  reassigned : (i : PlayerId) (e : Engine) → Addressed (reassign_mafia_representative R i e).1
  unfolding reassign_mafia_representative
  reassigned i e = reassign_among-Addressed (living_mafia_ids e.state.players) i e

  pub mark_dead-Addressed : (i : PlayerId) (e : Engine) → Addressed (mark_dead R i e).1
  unfolding mark_dead Addressed
  mark_dead-Addressed i e =
      let killed = set_state (record e.state { players = kill i e.state.players }) e in
      ground (arith, reassigned i killed)

  resolve_victim-Addressed :
      (v : Option PlayerId) (e : Engine) → IsAddressed (resolve_victim R v e).1
  unfolding resolve_victim IsAddressed Addressed audience
  resolve_victim-Addressed none e = (refl, tt)
  resolve_victim-Addressed (some v) e = elim (Option-cases (find_player v e.state.players)) [
    | inl h ↦ rw (h, resolve_victim) tt
    | inr (p, h) ↦ rw (h, resolve_victim) (refl, mark_dead-Addressed v e)
  ]

  finish_night-Addressed :
      (x : Engine × Result (List EventEnvelope))
      → IsAddressed x.1
      → IsAddressed (finish_night R x).1
  unfolding finish_night IsAddressed Addressed audience
  finish_night-Addressed (e, err f) h = tt
  finish_night-Addressed (e, ok envs) h = (refl, h)

  pub resolve_night-Addressed : (e : Engine) → IsAddressed (resolve_night R e).1
  unfolding resolve_night
  resolve_night-Addressed e =
      finish_night-Addressed (resolve_victim R (night_victim e.state) e)
        (resolve_victim-Addressed (night_victim e.state) e)
