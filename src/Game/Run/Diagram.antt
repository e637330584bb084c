-- ===== src/Game/Run/Diagram.antt =====
-- The phases through a whole game, call by call.
use mafia_game_party.Prelude.{Bool, true, PlayerId, ◌≡◌, arith}
use mafia_game_party.Game.Validation.{ensure_phase}
use mafia_game_party.Game.Rand.{Rng}
use mafia_game_party.Game.Engine.{Engine}
use mafia_game_party.Game.Event.{
  Action, start_game, advance_intro, end_self_intro, submit_mafia_kill, submit_doctor_heal,
  submit_police_check, end_night_early, end_discussion_early, submit_vote, toggle_voice,
  force_end_game, pause_game, resume_game,
}
use mafia_game_party.Game.NightAction.{
  handle_mafia_kill, handle_doctor_heal, handle_police_check, handle_end_night_early,
}
use mafia_game_party.Game.Vote.{handle_end_discussion_early}
use mafia_game_party.Game.Lifecycle.{
  handle_end_self_intro, handle_advance_intro, handle_toggle_voice, handle_pause_game,
  handle_resume_game, handle_force_end,
}
use mafia_game_party.Game.NightAction.Effect.{mafia_kill_effect, doctor_heal_effect}
use mafia_game_party.Game.Apply.{handle, apply}
use mafia_game_party.Game.Invariant.Defs.{Inv}
use mafia_game_party.Game.Invariant.Apply.{start_game_refused}
use mafia_game_party.Game.Run.{Call, act, tick_at, step}
use mafia_game_party.Game.Run.Phases.{
  may_follow, may_follow_refl, handle_vote-phase, resolve_night-phase, tick-phase,
}

module _ (i : PlayerId) (e : Engine) where
  intro-phase :
      (may_follow e.state.phase (handle_advance_intro i e).0.state.phase ≡ true)
      × (may_follow e.state.phase (handle_end_self_intro i e).0.state.phase ≡ true)
      × (may_follow e.state.phase (handle_end_discussion_early i e).0.state.phase ≡ true)
  unfolding handle_advance_intro handle_end_self_intro handle_end_discussion_early ensure_phase
      may_follow
  intro-phase = (ground arith, ground arith, ground arith)

  host-phase :
      (may_follow e.state.phase (handle_force_end i e).0.state.phase ≡ true)
      × (may_follow e.state.phase (handle_pause_game i e).0.state.phase ≡ true)
      × (may_follow e.state.phase (handle_resume_game i e).0.state.phase ≡ true)
      × ((on : Bool) → may_follow e.state.phase (handle_toggle_voice i on e).0.state.phase ≡ true)
  unfolding handle_force_end handle_pause_game handle_resume_game handle_toggle_voice may_follow
  host-phase = (ground arith, ground arith, ground arith, λ on. ground arith)

  night-phase :
      (target : PlayerId)
      → ((handle_mafia_kill i target e).0.state.phase ≡ e.state.phase)
        × ((handle_doctor_heal i target e).0.state.phase ≡ e.state.phase)
        × ((handle_police_check i target e).0.state.phase ≡ e.state.phase)
  unfolding handle_police_check
  night-phase target = (
    ground (arith, mafia_kill_effect i target e),
    ground (arith, doctor_heal_effect i target e),
    ground arith,
  )

module _ (R : Rng) where
  end_night_early-phase :
      (host : PlayerId) (e : Engine)
      → may_follow e.state.phase (handle_end_night_early R host e).0.state.phase ≡ true
  unfolding handle_end_night_early ensure_phase may_follow
  end_night_early-phase host e = ground (arith, resolve_night-phase R e)

  handle-phase :
      (a : Action) (e : Engine)
      → Inv e.state
      → may_follow e.state.phase (handle R a e).0.state.phase ≡ true
  unfolding handle
  handle-phase (start_game host o) e v =
      rw (start_game_refused R host o e v) (may_follow_refl e.state.phase)
  handle-phase (advance_intro host) e v = (intro-phase host e).0
  handle-phase (end_self_intro i) e v = (intro-phase i e).1
  handle-phase (submit_mafia_kill i target) e v =
      rw (night-phase i e target).0 (may_follow_refl e.state.phase)
  handle-phase (submit_doctor_heal i target) e v =
      rw (night-phase i e target).1 (may_follow_refl e.state.phase)
  handle-phase (submit_police_check i target) e v =
      rw (night-phase i e target).2 (may_follow_refl e.state.phase)
  handle-phase (end_night_early host) e v = end_night_early-phase host e
  handle-phase (end_discussion_early host) e v = (intro-phase host e).2
  handle-phase (submit_vote voter target) e v = handle_vote-phase R voter target e
  handle-phase (toggle_voice host on) e v = (host-phase host e).3 on
  handle-phase (force_end_game host) e v = (host-phase host e).0
  handle-phase (pause_game host) e v = (host-phase host e).1
  handle-phase (resume_game host) e v = (host-phase host e).2

  apply-phase :
      (a : Action) (e : Engine)
      → Inv e.state
      → may_follow e.state.phase (apply R a e).0.state.phase ≡ true
  unfolding apply
  apply-phase a e v = ground (arith, may_follow_refl e.state.phase, handle-phase a e v)

  -- From a state that meets the invariant of a started game, any call, at any time, leaves the phase
  -- as it is or moves it along one arrow of the game: the introductions to the day, the day to the
  -- vote, the vote to the recount or the night, the recount to the night, the night to the day, and any
  -- phase to the end.
  pub phase_follows :
      (c : Call) (e : Engine)
      → Inv e.state
      → may_follow e.state.phase (step R c e).0.state.phase ≡ true
  unfolding step
  phase_follows (act clock a) e v = apply-phase a (record e { clock = clock }) v
  phase_follows (tick_at clock now) e v = tick-phase R now (record e { clock = clock })
