-- ===== src/Game/Apply.antt =====
-- internal/game/apply.go: the dispatch of an action.
pub mod Atomic
pub mod Told
use mafia_game_party.Prelude.{not, if◌then◌else◌}
use mafia_game_party.Game.Types.{Phase, is_phase}
use mafia_game_party.Game.Event.{
  Action, start_game, advance_intro, end_self_intro, submit_mafia_kill, submit_doctor_heal,
  submit_police_check, end_night_early, end_discussion_early, submit_vote, toggle_voice,
  force_end_game, pause_game, resume_game,
}
use mafia_game_party.Game.Error.{ErrorCode, errf}
use mafia_game_party.Game.Validation.{require}
use mafia_game_party.Game.Rand.{Rng}
use mafia_game_party.Game.Engine.{Method, ◌>>◌}
use mafia_game_party.Game.Start.{handle_start_game}
use mafia_game_party.Game.NightAction.{
  handle_mafia_kill, handle_doctor_heal, handle_police_check, handle_end_night_early,
}
use mafia_game_party.Game.Vote.{handle_end_discussion_early, handle_vote}
use mafia_game_party.Game.Lifecycle.{
  handle_advance_intro, handle_end_self_intro, handle_toggle_voice, handle_force_end,
  handle_pause_game, handle_resume_game,
}

module _ (R : Rng) where
  -- the type switch
  unfoldable pub handle : Action → Method
  handle (start_game host o) = handle_start_game R host o
  handle (advance_intro host) = handle_advance_intro host
  handle (end_self_intro i) = handle_end_self_intro i
  handle (submit_mafia_kill mafia target) = handle_mafia_kill mafia target
  handle (submit_doctor_heal doctor target) = handle_doctor_heal doctor target
  handle (submit_police_check police target) = handle_police_check police target
  handle (end_night_early host) = handle_end_night_early R host
  handle (end_discussion_early host) = handle_end_discussion_early host
  handle (submit_vote voter target) = handle_vote R voter target
  handle (toggle_voice host on) = handle_toggle_voice host on
  handle (force_end_game host) = handle_force_end host
  handle (pause_game host) = handle_pause_game host
  handle (resume_game host) = handle_resume_game host

  -- A finished game takes no action.
  unfoldable pub apply : Action → Method
  apply a e =
      (do require (not (is_phase e.state.phase Phase.end)) (errf ErrorCode.wrong_phase); handle a) e
