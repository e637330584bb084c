-- ===== src/Game/NightAction/Effect.antt =====
-- What a night action writes: nothing, or its own target after all its checks.
use mafia_game_party.Prelude.{none, some, [], ◌∷◌, PlayerId, ◌≡◌, ◌⊎◌, arith}
use mafia_game_party.Game.Validation.{ensure_alive}
use mafia_game_party.Game.Engine.{Engine}
use mafia_game_party.Game.NightAction.{handle_mafia_kill, handle_doctor_heal}

module _ (i target : PlayerId) (e : Engine) where
  pub mafia_kill_effect :
      ((handle_mafia_kill i target e).0 ≡ e)
      ⊎ ((ensure_alive e.state (i ∷ target ∷ []) ≡ none)
          × ((handle_mafia_kill i target e).0
              ≡ record e { state = record e.state { pending_mafia_target = some target } }))
  unfolding handle_mafia_kill
  mafia_kill_effect = ground arith

  pub doctor_heal_effect :
      ((handle_doctor_heal i target e).0 ≡ e)
      ⊎ ((handle_doctor_heal i target e).0
          ≡ record e { state = record e.state { pending_doctor_target = some target } })
  unfolding handle_doctor_heal
  doctor_heal_effect = ground arith
