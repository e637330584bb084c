-- ===== src/Session/HostOptions.antt =====
-- internal/session/host_options.go: the options that the host saves for later rooms.
pub mod Accept
use mafia_game_party.Prelude.{
  Bool, true, false, ◌&&◌, ◌||◌, Option, none, some, List, [], ◌∷◌, ◌++◌, String, ℤ, pos, ltb_ℤ,
  leb_ℤ, ◌-ℤ◌, if◌then◌else◌,
}
use mafia_game_party.Game.Types.{Options}
use mafia_game_party.Game.Error.{ErrorCode, FieldError, Failure, validation_errors}
use mafia_game_party.Persistence.{Store}
use mafia_game_party.Session.Types.{Manager, Outcome, done, fault, rejected}
use mafia_game_party.Session.HostAuthority.{verify}

report_if : Bool → String → List FieldError
report_if true field = record { field = field; code = ErrorCode.validation } ∷ []
report_if false field = []

-- the first three rules: the sizes of the room and of the mafia
unfoldable pub size_errors : Options → List FieldError
unfolding report_if
size_errors o =
    report_if (ltb_ℤ o.max_players (pos 6) || ltb_ℤ (pos 12) o.max_players) "maxPlayers"
    ++ (report_if (ltb_ℤ o.mafia_count (pos 1)) "mafiaCount"
        ++ report_if
            (leb_ℤ (pos 6) o.max_players
              && (leb_ℤ (pos 1) o.mafia_count && ltb_ℤ (o.max_players -ℤ pos 3) o.mafia_count))
            "mafiaCount")

-- the other five: the durations
unfoldable pub duration_errors : Options → List FieldError
unfolding report_if
duration_errors o =
    report_if (ltb_ℤ o.intro_seconds_per_player (pos 5)) "introSecondsPerPlayer"
    ++ (report_if (ltb_ℤ o.discussion_seconds (pos 30)) "discussionSeconds"
        ++ (report_if (ltb_ℤ o.night_mafia_seconds (pos 5)) "nightMafiaSeconds"
            ++ (report_if (ltb_ℤ o.night_police_seconds (pos 5)) "nightPoliceSeconds"
                ++ report_if (ltb_ℤ o.night_doctor_seconds (pos 5)) "nightDoctorSeconds")))

abbrev error_of : List FieldError → Option Failure
error_of [] = none
error_of (e ∷ es) = some (validation_errors (e ∷ es))

unfoldable pub validate_saved_host_options : Options → Option Failure
validate_saved_host_options o = error_of (size_errors o ++ duration_errors o)

module _ (S : Store) where
  abbrev pub checked :
      Option Failure → Option Failure → Options → Manager S → Manager S × Option Failure
  checked (some f) v o m = (m, some f)
  checked none (some f) o m = (m, some f)
  checked none none o m = (record m { saved_host_options = o; has_saved_host_options = true }, none)

  -- `none` is success.
  unfoldable pub save_host_options : String → Options → Manager S → Manager S × Option Failure
  save_host_options token o m = checked (verify token m.host) (validate_saved_host_options o) o m

  unfoldable pub saved_options : Manager S → Options × Bool
  saved_options m = (m.saved_host_options, m.has_saved_host_options)
