-- ===== src/Game/Types.antt =====
-- internal/game/types.go: the enumerations, the options and the night durations. The Go types of
-- the enumerations are strings: `unset` is "", and strings outside the constants are left out.
use mafia_game_party.Prelude.{Bool, true, false, ℤ, pos, leb_ℤ, if◌then◌else◌}

pub data Role : Type 0 where
  unset mafia citizen doctor police : Role

unfoldable pub role_dec : Discrete Role
role_dec = hlevel

abbrev pub is_role : Role → Role → Bool
is_role a b = elim (role_dec a b) [ yes _ ↦ true | no _ ↦ false ]

pub data Team : Type 0 where
  unset mafia citizen : Team

unfoldable pub team_of : Role → Team
team_of r = if is_role r Role.mafia then Team.mafia else Team.citizen

pub data Phase : Type 0 where
  unset lobby intro night day vote recount end : Phase

unfoldable pub phase_dec : Discrete Phase
phase_dec = hlevel

abbrev pub is_phase : Phase → Phase → Bool
is_phase a b = elim (phase_dec a b) [ yes _ ↦ true | no _ ↦ false ]

pub data NightStep : Type 0 where
  unset intro mafia police doctor resolved : NightStep

unfoldable pub step_dec : Discrete NightStep
step_dec = hlevel

abbrev pub is_step : NightStep → NightStep → Bool
is_step a b = elim (step_dec a b) [ yes _ ↦ true | no _ ↦ false ]

pub data EndReason : Type 0 where
  mafia_win citizen_win host_force_end : EndReason

-- The `int` fields are signed: they come from the host's message.
pub record Options : Type 0 where
  pub mafia_count : ℤ
  pub max_players : ℤ
  pub intro_seconds_per_player : ℤ
  pub discussion_seconds : ℤ
  pub night_mafia_seconds : ℤ
  pub night_police_seconds : ℤ
  pub night_doctor_seconds : ℤ
  pub doctor_self_heal_allowed : Bool
  pub announcement_voice_on : Bool

abbrev pub default_night_mafia_seconds : ℤ
default_night_mafia_seconds = pos 30

abbrev pub default_night_police_seconds : ℤ
default_night_police_seconds = pos 10

abbrev pub default_night_doctor_seconds : ℤ
default_night_doctor_seconds = pos 10

abbrev pub default_night_intro_seconds : ℤ
default_night_intro_seconds = pos 20

abbrev pub default_day_intro_seconds : ℤ
default_day_intro_seconds = pos 5

abbrev pub default_final_result_buffer_seconds : ℤ
default_final_result_buffer_seconds = pos 5

unfoldable pub recommended_mafia_count : ℤ → ℤ
recommended_mafia_count n =
    if leb_ℤ n (pos 6) then pos 1 else if leb_ℤ n (pos 9) then pos 2 else pos 3

-- `MaxPlayers` is left at its zero value.
unfoldable pub default_options : ℤ → Options
unfolding recommended_mafia_count
default_options player_count = record {
  mafia_count = recommended_mafia_count player_count;
  max_players = pos 0;
  intro_seconds_per_player = pos 20;
  discussion_seconds = pos 180;
  night_mafia_seconds = default_night_mafia_seconds;
  night_police_seconds = default_night_police_seconds;
  night_doctor_seconds = default_night_doctor_seconds;
  doctor_self_heal_allowed = true;
  announcement_voice_on = true;
}

or_default : ℤ → ℤ → ℤ
or_default v def = if leb_ℤ v (pos 0) then def else v

unfoldable pub night_step_seconds : Options → NightStep → ℤ
unfolding or_default
night_step_seconds o NightStep.intro = default_night_intro_seconds
night_step_seconds o NightStep.mafia = or_default o.night_mafia_seconds default_night_mafia_seconds
night_step_seconds o NightStep.police =
    or_default o.night_police_seconds default_night_police_seconds
night_step_seconds o NightStep.doctor =
    or_default o.night_doctor_seconds default_night_doctor_seconds
night_step_seconds o NightStep.unset = pos 0
night_step_seconds o NightStep.resolved = pos 0
