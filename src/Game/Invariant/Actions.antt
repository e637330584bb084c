-- ===== src/Game/Invariant/Actions.antt =====
-- The other actions keep the invariant (handlers_lifecycle.go, handlers_night.go).
use mafia_game_party.Prelude.{Bool, true, none, [], ◌∷◌, PlayerId, ◌≡◌, arith, inl, inr}
use mafia_game_party.Game.State.{State}
use mafia_game_party.Game.Validation.{ensure_phase, ensure_alive}
use mafia_game_party.Game.Rand.{Rng}
use mafia_game_party.Game.Engine.{Engine}
use mafia_game_party.Game.NightAction.{
  handle_mafia_kill, handle_doctor_heal, handle_police_check, handle_end_night_early,
}
use mafia_game_party.Game.NightAction.Effect.{mafia_kill_effect, doctor_heal_effect}
use mafia_game_party.Game.Lifecycle.{
  handle_end_self_intro, handle_advance_intro, handle_toggle_voice, handle_pause_game,
  handle_resume_game, handle_force_end,
}
use mafia_game_party.Game.Invariant.Players.{is_known}
use mafia_game_party.Game.Invariant.Defs.{Inv}
use mafia_game_party.Game.Invariant.Night.{resolve_night-Inv}

is_known_of_ensure_alive :
    (s : State) (i target : PlayerId)
    → ensure_alive s (i ∷ target ∷ []) ≡ none
    → is_known target s.players ≡ true
unfolding ensure_alive is_known
is_known_of_ensure_alive s i target h = ground arith

module _ (i : PlayerId) (e : Engine) (v : Inv e.state) where
  pub advance_intro-Inv : Inv (handle_advance_intro i e).0.state
  unfolding handle_advance_intro ensure_phase
  advance_intro-Inv = ground arith

  pub end_self_intro-Inv : Inv (handle_end_self_intro i e).0.state
  unfolding handle_end_self_intro ensure_phase
  end_self_intro-Inv = ground arith

  pub toggle_voice-Inv : (on : Bool) → Inv (handle_toggle_voice i on e).0.state
  unfolding handle_toggle_voice
  toggle_voice-Inv on = ground arith

  pub force_end-Inv : Inv (handle_force_end i e).0.state
  unfolding handle_force_end
  force_end-Inv = ground arith

  pub pause-Inv : Inv (handle_pause_game i e).0.state
  unfolding handle_pause_game
  pause-Inv = ground arith

  pub resume-Inv : Inv (handle_resume_game i e).0.state
  unfolding handle_resume_game
  resume-Inv = ground arith

  pub doctor_heal-Inv : (target : PlayerId) → Inv (handle_doctor_heal i target e).0.state
  doctor_heal-Inv target = elim (doctor_heal_effect i target e) [
    | inl same ↦ rw same v
    | inr healed ↦ rw healed (ground arith)
  ]

  pub police_check-Inv : (target : PlayerId) → Inv (handle_police_check i target e).0.state
  unfolding handle_police_check
  police_check-Inv target = ground arith

  -- A target that passes the checks is a player.
  pub mafia_kill-Inv : (target : PlayerId) → Inv (handle_mafia_kill i target e).0.state
  mafia_kill-Inv target = elim (mafia_kill_effect i target e) [
    | inl same ↦ rw same v
    | inr (alive, aimed) ↦ rw aimed (record {
      base = ground (arith, is_known_of_ensure_alive e.state i target alive);
      undecided = v.undecided;
    })
  ]

  pub end_night_early-Inv : (R : Rng) → Inv (handle_end_night_early R i e).0.state
  unfolding handle_end_night_early
  end_night_early-Inv R = ground (arith, resolve_night-Inv R e v.base)
