-- ===== src/Game/NightAction.antt =====
-- internal/game/handlers_night.go: the night actions.
pub mod Effect
pub mod Accept
use mafia_game_party.Prelude.{
  ℕ, suc, ◌+◌, Bool, true, false, not, ◌&&◌, Option, none, some, List, [], ◌∷◌, ◌++◌, PlayerId,
  nobody, ◌===◌, if◌then◌else◌, length, get_or, ◌+ℤ◌,
}
use mafia_game_party.Prelude.Time.{Time, zero_time, add, seconds}
use mafia_game_party.Game.Types.{
  Role, is_role, Team, team_of, Phase, NightStep, is_step, EndReason, night_step_seconds,
  default_day_intro_seconds,
}
use mafia_game_party.Game.State.{
  Player, State, PoliceCheckRecord, find_player, kill, living_mafia_ids,
}
use mafia_game_party.Game.Event.{
  EventEnvelope, public_event, private_event, mafia_event, phase_changed, night_step_changed,
  death_announced, peaceful_night, mafia_target_selected, police_result,
  mafia_representative_reassigned,
}
use mafia_game_party.Game.Error.{ErrorCode, Failure, errf}
use mafia_game_party.Game.Validation.{require, ensure_host, ensure_phase, ensure_role, ensure_alive}
use mafia_game_party.Game.Rand.{Rng, new_inner_rand}
use mafia_game_party.Game.Engine.{Engine, Result, ok, err, Method, set_state, fail, succeed, ◌>>◌}
use mafia_game_party.Game.End.{evaluate_end, schedule_game_end}
use mafia_game_party.Game.Night.{resolve_night}

unset_target : Option PlayerId → Bool
unset_target none = true
unset_target (some i) = false

pub role_of : Option Player → Role
role_of none = Role.unset
role_of (some p) = p.role

unfoldable pub handle_mafia_kill : PlayerId → PlayerId → Method
unfolding unset_target role_of
handle_mafia_kill mafia target e =
    let s = e.state in
    (do
      ensure_phase s (Phase.night ∷ [])
      require (is_step s.night_step NightStep.mafia) (errf ErrorCode.wrong_phase)
      ensure_role s mafia Role.mafia
      ensure_alive s (mafia ∷ target ∷ [])
      require (mafia === s.mafia_representative_id) (errf ErrorCode.not_representative)
      require (unset_target s.pending_mafia_target) (errf ErrorCode.already_done)
      require (not (is_role (role_of (find_player target s.players)) Role.mafia))
          (errf ErrorCode.invalid_target)
      succeed (record s { pending_mafia_target = some target })
          (mafia_event (mafia_target_selected mafia target) ∷ []))
      e

unfoldable pub handle_doctor_heal : PlayerId → PlayerId → Method
unfolding unset_target
handle_doctor_heal doctor target e =
    let s = e.state in
    (do
      ensure_phase s (Phase.night ∷ [])
      require (is_step s.night_step NightStep.doctor) (errf ErrorCode.wrong_phase)
      ensure_role s doctor Role.doctor
      ensure_alive s (doctor ∷ target ∷ [])
      require (not (doctor === target && not s.settings.doctor_self_heal_allowed))
          (errf ErrorCode.invalid_target)
      require (unset_target s.pending_doctor_target) (errf ErrorCode.already_done)
      succeed (record s { pending_doctor_target = some target }) [])
      e

unfoldable pub handle_police_check : PlayerId → PlayerId → Method
unfolding role_of
handle_police_check police target e =
    let s = e.state in
    let team = team_of (role_of (find_player target s.players)) in
    let found : PoliceCheckRecord = record { day = s.day; target = target; team = team } in
    (do
      ensure_phase s (Phase.night ∷ [])
      require (is_step s.night_step NightStep.police) (errf ErrorCode.wrong_phase)
      ensure_role s police Role.police
      ensure_alive s (police ∷ target ∷ [])
      require (not (police === target)) (errf ErrorCode.invalid_target)
      require (not s.police_checked_this_night) (errf ErrorCode.already_done)
      succeed
          (record s {
            pending_police_target = some target;
            police_checked_this_night = true;
            police_history = s.police_history ++ found ∷ [];
          })
          (private_event (police_result police target team) police ∷ []))
      e

module _ (R : Rng) where
  unfoldable pub handle_end_night_early : PlayerId → Method
  handle_end_night_early host e =
      (do ensure_phase e.state (Phase.night ∷ []); ensure_host e.state host; resolve_night R) e
