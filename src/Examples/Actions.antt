-- ===== src/Examples/Actions.antt =====
-- Witnesses: the night actions and the deal applied to concrete players.
use mathlib.Core.Option
use mafia_game_party.Prelude.{
  ◌+◌, Bool, true, false, not, Option, none, some, [], ◌∷◌, PlayerId, nobody, id_dec, any, insert,
  lookup_or, ◌-ℤ◌, ◌+ℤ◌, wrap_64, ◌≡◌, refl, ◌≢◌, ◌⊎◌, ◌↔◌, arith,
}
use mafia_game_party.Game.Types.{Role, is_role, Phase, phase_dec, role_dec, NightStep, team_of}
use mafia_game_party.Game.State.{find_player}
use mafia_game_party.Game.Event.{mafia_event, mafia_target_selected, private_event, police_result}
use mafia_game_party.Game.Engine.{Engine, Result, ok, err}
use mafia_game_party.Game.NightAction.{
  role_of, handle_mafia_kill, handle_doctor_heal, handle_police_check,
}
use mafia_game_party.Game.NightAction.Accept.{
  lives_as, mafia_kill_accepted, doctor_heal_accepted, police_check_accepted,
}
use mafia_game_party.Game.Role
use mafia_game_party.Game.Role.{
  Assignments, assign, after_validation, deal, put_all, with_keywords, pick_keywords,
  pick_representative, keyword_of,
}
use mafia_game_party.Game.Role.Deal.{role_in, elem, count_role}
use mafia_game_party.Game.Role.Assign.{assign_counts}
use mafia_game_party.Game.Keyword.{pick, pool_for}
use mafia_game_party.Game.Validation.{
  validate_options, options_errors, player_count_errors, max_players_errors, mafia_count_errors,
  majority_errors, plain_citizen_errors, seconds_errors,
}
use mafia_game_party.Game.Validation.Accept.{IsValid}
use mafia_game_party.Game.Invariant.Players.{ids, Distinct}
use mafia_game_party.Examples.Distinct.{none_is, all_differ, all_differ_lem}
use mafia_game_party.Examples.Setup.{
  example_rng, example_options, words, six_players, cast, game_in, engine_with,
}

abbrev night_at : NightStep → Engine
night_at step = engine_with (record (game_in Phase.night) { night_step = step })

mafia_kill_accepted_example :
    (handle_mafia_kill "a" "d" (night_at NightStep.mafia) ≡ (
      engine_with (record (game_in Phase.night) {
        night_step = NightStep.mafia;
        pending_mafia_target = some "d";
      }),
      ok (mafia_event (mafia_target_selected "a" "d") ∷ []),
    ))
    ↔ ((Phase.night ≡ Phase.night)
        × (NightStep.mafia ≡ NightStep.mafia)
        × (lives_as (λ r. is_role r Role.mafia) (find_player "a" cast) ≡ true)
        × (◌≡◌ {A = PlayerId} "a" "a")
        × (◌≡◌ {A = Option PlayerId} none none)
        × (lives_as (λ r. not (is_role r Role.mafia)) (find_player "d" cast) ≡ true))
mafia_kill_accepted_example = mafia_kill_accepted "a" "d" (night_at NightStep.mafia)

doctor_heal_accepted_example :
    (handle_doctor_heal "b" "b" (night_at NightStep.doctor) ≡ (
      engine_with (record (game_in Phase.night) {
        night_step = NightStep.doctor;
        pending_doctor_target = some "b";
      }),
      ok [],
    ))
    ↔ ((Phase.night ≡ Phase.night)
        × (NightStep.doctor ≡ NightStep.doctor)
        × (lives_as (λ r. is_role r Role.doctor) (find_player "b" cast) ≡ true)
        × (lives_as (λ r. true) (find_player "b" cast) ≡ true)
        × ((◌≢◌ {A = PlayerId} "b" "b") ⊎ (true ≡ true))
        × (◌≡◌ {A = Option PlayerId} none none))
doctor_heal_accepted_example = doctor_heal_accepted "b" "b" (night_at NightStep.doctor)

police_check_accepted_example :
    let s = (night_at NightStep.police).state in
    let team = team_of (role_of (find_player "a" cast)) in
    (handle_police_check "c" "a" (night_at NightStep.police) ≡ (
      engine_with (record s {
        pending_police_target = some "a";
        police_checked_this_night = true;
        police_history = record { day = 1; target = "a"; team = team } ∷ [];
      }),
      ok (private_event (police_result "c" "a" team) "c" ∷ []),
    ))
    ↔ ((Phase.night ≡ Phase.night)
        × (NightStep.police ≡ NightStep.police)
        × (lives_as (λ r. is_role r Role.police) (find_player "c" cast) ≡ true)
        × (lives_as (λ r. true) (find_player "a" cast) ≡ true)
        × (◌≢◌ {A = PlayerId} "c" "a")
        × (false ≡ false))
police_check_accepted_example = police_check_accepted "c" "a" (night_at NightStep.police)

abbrev dealt : Result Assignments
dealt = assign example_rng words (ids six_players) example_options 0

no_roles : Assignments
no_roles = record {
  player_roles = [];
  player_keywords = [];
  mafia_ids = [];
  representative_id = nobody;
}

value_of : Result Assignments → Assignments
value_of (ok a) = a
value_of (err f) = no_roles

is_ok : Result Assignments → Bool
is_ok (ok a) = true
is_ok (err f) = false

is_ok_value : (r : Result Assignments) → is_ok r ≡ true → r ≡ ok (value_of r)
unfolding is_ok value_of
is_ok_value (ok a) h = refl
is_ok_value (err f) h = cc

dealt_ok : is_ok dealt ≡ true
unfolding is_ok assign after_validation deal put_all Role.with_roles with_keywords pick_keywords
    pick_representative keyword_of pick pool_for validate_options options_errors player_count_errors
    max_players_errors mafia_count_errors majority_errors plain_citizen_errors seconds_errors
    phase_dec role_dec id_dec ◌-ℤ◌ ◌+ℤ◌ wrap_64 any insert lookup_or Option.bind
dealt_ok = refl

six-Distinct : Distinct (ids six_players)
unfolding all_differ none_is id_dec
six-Distinct = all_differ_lem (ids six_players) refl

assign_counts_example :
    let asg = value_of dealt in
    IsValid example_options 6
    × (count_role (role_in asg.player_roles) Role.mafia (ids six_players) ≡ 1)
    × (count_role (role_in asg.player_roles) Role.doctor (ids six_players) ≡ 1)
    × (count_role (role_in asg.player_roles) Role.police (ids six_players) ≡ 1)
    × (count_role (role_in asg.player_roles) Role.citizen (ids six_players) + 1 + 2 ≡ 6)
    × (role_in asg.player_roles asg.representative_id ≡ Role.mafia)
    × (elem asg.representative_id (ids six_players) ≡ true)
assign_counts_example =
    assign_counts example_rng words (ids six_players) example_options 0 six-Distinct
      (record { below = omega arith; above = omega arith }) (is_ok_value dealt dealt_ok)
