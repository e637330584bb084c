-- ===== src/Game/Invariant/Apply.antt =====
-- Every action keeps the invariant (apply.go).
use mafia_game_party.Prelude.{PlayerId, ◌≡◌, arith}
use mafia_game_party.Game.Types.{Options}
use mafia_game_party.Game.Event.{
  Action, start_game, advance_intro, end_self_intro, submit_mafia_kill, submit_doctor_heal,
  submit_police_check, end_night_early, end_discussion_early, submit_vote, toggle_voice,
  force_end_game, pause_game, resume_game,
}
use mafia_game_party.Game.Rand.{Rng}
use mafia_game_party.Game.Engine.{Engine}
use mafia_game_party.Game.Start.{handle_start_game}
use mafia_game_party.Game.Apply.{handle, apply}
use mafia_game_party.Game.Invariant.Defs.{Inv}
use mafia_game_party.Game.Invariant.Vote.{handle_vote-Inv, end_discussion-Inv}
use mafia_game_party.Game.Invariant.Actions.{
  advance_intro-Inv, end_self_intro-Inv, toggle_voice-Inv, force_end-Inv, pause-Inv, resume-Inv,
  doctor_heal-Inv, police_check-Inv, mafia_kill-Inv, end_night_early-Inv,
}

module _ (R : Rng) where
  -- A started game is not started again.
  pub start_game_refused :
      (host : PlayerId) (o : Options) (e : Engine)
      → Inv e.state
      → (handle_start_game R host o e).0 ≡ e
  unfolding handle_start_game
  start_game_refused host o e v = ground (arith, v.base.started)

  handle-Inv : (a : Action) (e : Engine) → Inv e.state → Inv (handle R a e).0.state
  unfolding handle
  handle-Inv (start_game host o) e v = rw (start_game_refused host o e v) v
  handle-Inv (advance_intro host) e v = advance_intro-Inv host e v
  handle-Inv (end_self_intro i) e v = end_self_intro-Inv i e v
  handle-Inv (submit_mafia_kill i target) e v = mafia_kill-Inv i e v target
  handle-Inv (submit_doctor_heal i target) e v = doctor_heal-Inv i e v target
  handle-Inv (submit_police_check i target) e v = police_check-Inv i e v target
  handle-Inv (end_night_early host) e v = end_night_early-Inv host e v R
  handle-Inv (end_discussion_early host) e v = end_discussion-Inv host e v
  handle-Inv (submit_vote voter target) e v = handle_vote-Inv R voter target e v
  handle-Inv (toggle_voice host on) e v = toggle_voice-Inv host e v on
  handle-Inv (force_end_game host) e v = force_end-Inv host e v
  handle-Inv (pause_game host) e v = pause-Inv host e v
  handle-Inv (resume_game host) e v = resume-Inv host e v

  -- Every action, accepted or not, keeps the invariant of a started game.
  pub apply-Inv : (a : Action) (e : Engine) → Inv e.state → Inv (apply R a e).0.state
  unfolding apply
  apply-Inv a e v = ground (arith, handle-Inv a e v)
