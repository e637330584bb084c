-- ===== src/Game/NightAction/Accept.antt =====
-- When a night action is accepted (handlers_night.go).
use mafia_game_party.Prelude.{
  true, false, Bool, ◌&&◌, not, Option, none, some, [], ◌∷◌, ◌++◌, PlayerId, ◌≡◌, ◌≢◌, ◌↔◌, ◌⊎◌,
  arith,
}
use mafia_game_party.Game.Types.{Role, is_role, Phase, NightStep, team_of}
use mafia_game_party.Game.State.{Player, find_player}
use mafia_game_party.Game.Event.{mafia_event, mafia_target_selected, private_event, police_result}
use mafia_game_party.Game.Validation.{ensure_alive, ensure_role, ensure_phase}
use mafia_game_party.Game.Engine.{Engine, ok}
use mafia_game_party.Game.NightAction.{
  handle_mafia_kill, handle_doctor_heal, handle_police_check, role_of,
}

abbrev pub lives_as : (Role → Bool) → Option Player → Bool
lives_as fits none = false
lives_as fits (some p) = p.alive && fits p.role

module _ (i target : PlayerId) (e : Engine) where
  -- The mafia's choice of a target is accepted exactly where it is the mafia's step of the night, the
  -- caller is a living mafia player and their representative, no target is set, and the target is a
  -- living player who is not of the mafia; then the state has the target, and nothing else changes.
  pub mafia_kill_accepted :
      let s = e.state in
      (handle_mafia_kill i target e ≡ (
        record e { state = record s { pending_mafia_target = some target } },
        ok (mafia_event (mafia_target_selected i target) ∷ []),
      ))
      ↔ ((s.phase ≡ Phase.night)
          × (s.night_step ≡ NightStep.mafia)
          × (lives_as (λ r. is_role r Role.mafia) (find_player i s.players) ≡ true)
          × (i ≡ s.mafia_representative_id)
          × (s.pending_mafia_target ≡ none)
          × (lives_as (λ r. not (is_role r Role.mafia)) (find_player target s.players) ≡ true))
  unfolding handle_mafia_kill ensure_alive ensure_role ensure_phase
  mafia_kill_accepted = (λ h. ground arith, λ h. ground arith)

  -- The doctor's choice is accepted exactly where it is the doctor's step of the night, the caller is a
  -- living doctor, the target lives, it is the caller only where the settings allow that, and no
  -- target is set; then the state has the target, and nothing else changes.
  pub doctor_heal_accepted :
      let s = e.state in
      (handle_doctor_heal i target e
        ≡ (record e { state = record s { pending_doctor_target = some target } }, ok []))
      ↔ ((s.phase ≡ Phase.night)
          × (s.night_step ≡ NightStep.doctor)
          × (lives_as (λ r. is_role r Role.doctor) (find_player i s.players) ≡ true)
          × (lives_as (λ r. true) (find_player target s.players) ≡ true)
          × ((i ≢ target) ⊎ (s.settings.doctor_self_heal_allowed ≡ true))
          × (s.pending_doctor_target ≡ none))
  unfolding handle_doctor_heal ensure_alive ensure_role ensure_phase
  doctor_heal_accepted = (λ h. ground arith, λ h. ground arith)

  -- The police's check is accepted exactly where it is the police's step of the night, the caller is a
  -- living police player, the target is another living player, and there was no check this night; the
  -- caller alone learns the target's team, and the check is recorded with its day.
  pub police_check_accepted :
      let s = e.state in
      let team = team_of (role_of (find_player target s.players)) in
      (handle_police_check i target e ≡ (
        record e {
          state = record s {
            pending_police_target = some target;
            police_checked_this_night = true;
            police_history =
                s.police_history ++ record { day = s.day; target = target; team = team } ∷ [];
          };
        },
        ok (private_event (police_result i target team) i ∷ []),
      ))
      ↔ ((s.phase ≡ Phase.night)
          × (s.night_step ≡ NightStep.police)
          × (lives_as (λ r. is_role r Role.police) (find_player i s.players) ≡ true)
          × (lives_as (λ r. true) (find_player target s.players) ≡ true)
          × (i ≢ target)
          × (s.police_checked_this_night ≡ false))
  unfolding handle_police_check ensure_alive ensure_role ensure_phase
  police_check_accepted = (λ h. ground arith, λ h. ground arith)
