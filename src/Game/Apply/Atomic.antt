-- ===== src/Game/Apply/Atomic.antt =====
-- A rejected action leaves the state of the game as it was (apply.go).
use mafia_game_party.Prelude.{◌≡◌, refl, arith, Option, none, some, List, PlayerId, map, ◌===◌}
use mafia_game_party.Game.Types.{Options, Phase, is_phase}
use mafia_game_party.Game.State.{State}
use mafia_game_party.Game.Event.{
  Action, EventEnvelope, start_game, advance_intro, end_self_intro, submit_mafia_kill,
  submit_doctor_heal, submit_police_check, end_night_early, end_discussion_early, submit_vote,
  toggle_voice, force_end_game, pause_game, resume_game,
}
use mafia_game_party.Game.Error.{Failure, ErrorCode, errf}
use mafia_game_party.Game.Validation.{require}
use mafia_game_party.Game.Rand.{Rng}
use mafia_game_party.Game.Role.{Assignments}
use mafia_game_party.Game.Engine.{Engine, Result, err, ◌>>◌}
use mafia_game_party.Game.Night.{resolve_night}
use mafia_game_party.Game.Start.{begin_game, restarted_state, handle_start_game}
use mafia_game_party.Game.NightAction.{
  handle_mafia_kill, handle_doctor_heal, handle_police_check, handle_end_night_early,
}
use mafia_game_party.Game.Vote.{handle_end_discussion_early, record_ballot, handle_vote}
use mafia_game_party.Game.Lifecycle.{
  handle_advance_intro, handle_end_self_intro, handle_toggle_voice, handle_force_end,
  handle_pause_game, handle_resume_game,
}
use mafia_game_party.Game.Apply.{handle, apply}

-- An error with the state kept.
abbrev pub IsAtomic : Engine → Engine × Result (List EventEnvelope) → Type 0
IsAtomic e r = (f : Failure) → r.1 ≡ err f → r.0.state ≡ e.state

module _ (R : Rng) (e : Engine) where
  resolve_night-IsAtomic : IsAtomic e (resolve_night R e)
  unfolding resolve_night
  resolve_night-IsAtomic f h = ground arith

  begin_game-IsAtomic :
      (ids : List PlayerId) (o : Options) (build : Assignments → State)
      → IsAtomic e (begin_game R ids o build e)
  unfolding begin_game
  begin_game-IsAtomic ids o build f h = ground arith

  guarded-IsAtomic :
      (c d : Option Failure) (ids : List PlayerId) (o : Options) (build : Assignments → State)
      → IsAtomic e ((do c; d; begin_game R ids o build) e)
  guarded-IsAtomic none none ids o build = begin_game-IsAtomic ids o build
  guarded-IsAtomic none (some f) ids o build = λ g h. refl
  guarded-IsAtomic (some f) d ids o build = λ g h. refl

  start_game-IsAtomic : (host : PlayerId) (o : Options) → IsAtomic e (handle_start_game R host o e)
  unfolding handle_start_game
  start_game-IsAtomic host o =
      guarded-IsAtomic (require (is_phase e.state.phase Phase.lobby) (errf ErrorCode.wrong_phase))
        (require (host === e.state.host_id) (errf ErrorCode.permission_denied))
        (map (λ p. p.id) e.state.players) o (λ asg. restarted_state o asg e.clock e.state)

  night-IsAtomic :
      (i target : PlayerId)
      → IsAtomic e (handle_mafia_kill i target e)
        × IsAtomic e (handle_doctor_heal i target e)
        × IsAtomic e (handle_police_check i target e)
  unfolding handle_mafia_kill handle_doctor_heal handle_police_check
  night-IsAtomic i target = (λ f h. ground arith, λ f h. ground arith, λ f h. ground arith)

  end_night_early-IsAtomic : (host : PlayerId) → IsAtomic e (handle_end_night_early R host e)
  unfolding handle_end_night_early
  end_night_early-IsAtomic host f h = ground (arith, resolve_night-IsAtomic f)

  vote-IsAtomic : (voter target : PlayerId) → IsAtomic e (handle_vote R voter target e)
  unfolding handle_vote record_ballot
  vote-IsAtomic voter target f h = ground arith

  day-IsAtomic :
      (i : PlayerId)
      → IsAtomic e (handle_end_discussion_early i e)
        × IsAtomic e (handle_advance_intro i e)
        × IsAtomic e (handle_end_self_intro i e)
  unfolding handle_end_discussion_early handle_advance_intro handle_end_self_intro
  day-IsAtomic i = (λ f h. ground arith, λ f h. ground arith, λ f h. ground arith)

  host-IsAtomic :
      (i : PlayerId)
      → IsAtomic e (handle_force_end i e)
        × IsAtomic e (handle_pause_game i e)
        × IsAtomic e (handle_resume_game i e)
  unfolding handle_force_end handle_pause_game handle_resume_game
  host-IsAtomic i = (λ f h. ground arith, λ f h. ground arith, λ f h. ground arith)

  handle-IsAtomic : (a : Action) → IsAtomic e (handle R a e)
  unfolding handle
  handle-IsAtomic (start_game host o) = start_game-IsAtomic host o
  handle-IsAtomic (advance_intro host) = (day-IsAtomic host).1
  handle-IsAtomic (end_self_intro i) = (day-IsAtomic i).2
  handle-IsAtomic (submit_mafia_kill i target) = (night-IsAtomic i target).0
  handle-IsAtomic (submit_doctor_heal i target) = (night-IsAtomic i target).1
  handle-IsAtomic (submit_police_check i target) = (night-IsAtomic i target).2
  handle-IsAtomic (end_night_early host) = end_night_early-IsAtomic host
  handle-IsAtomic (end_discussion_early host) = (day-IsAtomic host).0
  handle-IsAtomic (submit_vote voter target) = vote-IsAtomic voter target
  handle-IsAtomic (toggle_voice host on) = λ f h. unfold handle_toggle_voice in ground arith
  handle-IsAtomic (force_end_game host) = (host-IsAtomic host).0
  handle-IsAtomic (pause_game host) = (host-IsAtomic host).1
  handle-IsAtomic (resume_game host) = (host-IsAtomic host).2

-- If `Apply` returns an error, whatever the action and the engine, the state of the game is the one
-- before the call.
pub apply_error_unchanged :
    (R : Rng) (a : Action) (e : Engine) {f : Failure}
    → (apply R a e).1 ≡ err f
    → (apply R a e).0.state ≡ e.state
unfolding apply
apply_error_unchanged R a e {f} h = ground (arith, handle-IsAtomic R e a f)
