-- ===== src/Game/Run/Mortal.antt =====
-- Nobody rises from the dead, and no role changes hands, in a whole game.
use mafia_game_party.Prelude.{Bool, List, [], ◌∷◌, PlayerId, ◌≡◌, arith}
use mafia_game_party.Prelude.Time.{Time}
use mafia_game_party.Game.Rand.{Rng}
use mafia_game_party.Game.Engine.{Engine}
use mafia_game_party.Game.Event.{
  Action, start_game, advance_intro, end_self_intro, submit_mafia_kill, submit_doctor_heal,
  submit_police_check, end_night_early, end_discussion_early, submit_vote, toggle_voice,
  force_end_game, pause_game, resume_game,
}
use mafia_game_party.Game.NightAction.{
  handle_mafia_kill, handle_doctor_heal, handle_police_check, handle_end_night_early,
}
use mafia_game_party.Game.Vote.{handle_end_discussion_early}
use mafia_game_party.Game.Lifecycle.{
  advance_speaker, handle_end_self_intro, handle_advance_intro, handle_toggle_voice,
  handle_pause_game, handle_resume_game, handle_force_end,
}
use mafia_game_party.Game.NightAction.Effect.{mafia_kill_effect, doctor_heal_effect}
use mafia_game_party.Game.Apply.{handle, apply}
use mafia_game_party.Game.Invariant.Defs.{Inv}
use mafia_game_party.Game.Invariant.Apply.{start_game_refused}
use mafia_game_party.Game.Run.{Call, act, tick_at, step, run}
use mafia_game_party.Game.Run.Ages.{
  Ages, Ages-refl, Ages-trans, handle_vote-Ages, resolve_night-Ages, tick-Ages,
}
use mafia_game_party.Game.Run.Safe.{step-Inv}

module _ (i : PlayerId) (e : Engine) where
  advance_speaker-players : (now : Time) → (advance_speaker now e.state).0.players ≡ e.state.players
  unfolding advance_speaker
  advance_speaker-players now = ground arith

  intro-players :
      ((handle_advance_intro i e).0.state.players ≡ e.state.players)
      × ((handle_end_self_intro i e).0.state.players ≡ e.state.players)
  unfolding handle_advance_intro handle_end_self_intro
  intro-players = (
    ground (arith, advance_speaker-players e.clock),
    ground (arith, advance_speaker-players e.clock),
  )

  host-players :
      ((handle_end_discussion_early i e).0.state.players ≡ e.state.players)
      × ((handle_force_end i e).0.state.players ≡ e.state.players)
      × ((handle_pause_game i e).0.state.players ≡ e.state.players)
      × ((handle_resume_game i e).0.state.players ≡ e.state.players)
      × ((on : Bool) → (handle_toggle_voice i on e).0.state.players ≡ e.state.players)
  unfolding handle_end_discussion_early handle_force_end handle_pause_game handle_resume_game
      handle_toggle_voice
  host-players = (ground arith, ground arith, ground arith, ground arith, λ on. ground arith)

  night-players :
      (target : PlayerId)
      → ((handle_mafia_kill i target e).0.state.players ≡ e.state.players)
        × ((handle_doctor_heal i target e).0.state.players ≡ e.state.players)
        × ((handle_police_check i target e).0.state.players ≡ e.state.players)
  unfolding handle_police_check
  night-players target = (
    ground (arith, mafia_kill_effect i target e),
    ground (arith, doctor_heal_effect i target e),
    ground arith,
  )

module _ (R : Rng) where
  end_night_early-Ages :
      (host : PlayerId) (e : Engine)
      → Ages e.state.players (handle_end_night_early R host e).0.state.players
  unfolding handle_end_night_early
  end_night_early-Ages host e = ground (arith, Ages-refl e.state.players, resolve_night-Ages R e)

  handle-Ages :
      (a : Action) (e : Engine) → Inv e.state → Ages e.state.players (handle R a e).0.state.players
  unfolding handle
  handle-Ages (start_game host o) e v =
      rw (start_game_refused R host o e v) (Ages-refl e.state.players)
  handle-Ages (advance_intro host) e v = rw (intro-players host e).0 (Ages-refl e.state.players)
  handle-Ages (end_self_intro i) e v = rw (intro-players i e).1 (Ages-refl e.state.players)
  handle-Ages (submit_mafia_kill i target) e v =
      rw (night-players i e target).0 (Ages-refl e.state.players)
  handle-Ages (submit_doctor_heal i target) e v =
      rw (night-players i e target).1 (Ages-refl e.state.players)
  handle-Ages (submit_police_check i target) e v =
      rw (night-players i e target).2 (Ages-refl e.state.players)
  handle-Ages (end_night_early host) e v = end_night_early-Ages host e
  handle-Ages (end_discussion_early host) e v =
      rw (host-players host e).0 (Ages-refl e.state.players)
  handle-Ages (submit_vote voter target) e v = handle_vote-Ages R voter target e
  handle-Ages (toggle_voice host on) e v =
      rw ((host-players host e).4 on) (Ages-refl e.state.players)
  handle-Ages (force_end_game host) e v = rw (host-players host e).1 (Ages-refl e.state.players)
  handle-Ages (pause_game host) e v = rw (host-players host e).2 (Ages-refl e.state.players)
  handle-Ages (resume_game host) e v = rw (host-players host e).3 (Ages-refl e.state.players)

  apply-Ages :
      (a : Action) (e : Engine) → Inv e.state → Ages e.state.players (apply R a e).0.state.players
  unfolding apply
  apply-Ages a e v = ground (arith, Ages-refl e.state.players, handle-Ages a e v)

  step-Ages :
      (c : Call) (e : Engine) → Inv e.state → Ages e.state.players (step R c e).0.state.players
  unfolding step
  step-Ages (act clock a) e v = apply-Ages a (record e { clock = clock }) v
  step-Ages (tick_at clock now) e v = tick-Ages R now (record e { clock = clock })

  -- From a state that meets the invariant of a started game, no sequence of calls changes who the
  -- players are, their order, their names, their roles or their keywords, and none of the dead lives
  -- again: each player is as before, or as before and dead.
  pub players_only_die :
      (calls : List Call) (e : Engine)
      → Inv e.state
      → Ages e.state.players (run R calls e).state.players
  unfolding run
  players_only_die [] e v = Ages-refl e.state.players
  players_only_die (c ∷ calls) e v =
      Ages-trans e.state.players (step R c e).0.state.players
        (run R calls (step R c e).0).state.players (step-Ages c e v)
        (players_only_die calls (step R c e).0 (step-Inv R c e v))
