-- ===== src/Game/Validation.antt =====
-- internal/game/validation.go: the checks that the handlers make first.
pub mod Accept
use mafia_game_party.Prelude.{
  ℕ, Bool, true, false, ◌&&◌, ◌||◌, not, Option, none, some, List, [], ◌∷◌, ◌++◌, String, PlayerId,
  ◌===◌, if◌then◌else◌, any, ℤ, pos, ltb_ℤ, leb_ℤ, ◌-ℤ◌, ◌+ℤ◌,
}
use mafia_game_party.Game.Types.{Role, is_role, Phase, is_phase, Options}
use mafia_game_party.Game.State.{Player, State, find_player}
use mafia_game_party.Game.Error.{ErrorCode, FieldError, Failure, errf, validation_errors}

-- one `if … { errs = append(errs, …) }`
report_if : Bool → String → List FieldError
report_if true field = record { field = field; code = ErrorCode.validation } ∷ []
report_if false field = []

unfoldable pub max_players_errors : Options → ℤ → List FieldError
unfolding report_if
max_players_errors o player_count =
    if leb_ℤ o.max_players (pos 0) && leb_ℤ (pos 0) o.max_players
    then []
    else if ltb_ℤ o.max_players (pos 6) || ltb_ℤ (pos 12) o.max_players
    then report_if true "maxPlayers"
    else report_if (ltb_ℤ o.max_players player_count) "maxPlayers"

unfoldable pub player_count_errors : ℤ → List FieldError
unfolding report_if
player_count_errors n = report_if (ltb_ℤ n (pos 6) || ltb_ℤ (pos 12) n) "playerCount"

unfoldable pub mafia_count_errors : Options → List FieldError
unfolding report_if
mafia_count_errors o = report_if (ltb_ℤ o.mafia_count (pos 1)) "mafiaCount"

-- `citizenSide := playerCount - opts.MafiaCount`
unfoldable pub majority_errors : Options → ℤ → List FieldError
unfolding report_if
majority_errors o n =
    report_if (leb_ℤ (pos 1) o.mafia_count && ltb_ℤ (n -ℤ o.mafia_count) (o.mafia_count +ℤ pos 1))
      "mafiaCount"

unfoldable pub plain_citizen_errors : Options → ℤ → List FieldError
unfolding report_if
plain_citizen_errors o n =
    report_if (leb_ℤ (pos 1) o.mafia_count && ltb_ℤ (n -ℤ o.mafia_count -ℤ pos 2) (pos 1))
      "mafiaCount"

unfoldable pub seconds_errors : Options → List FieldError
unfolding report_if
seconds_errors o =
    report_if (ltb_ℤ o.intro_seconds_per_player (pos 5)) "introSecondsPerPlayer"
    ++ report_if (ltb_ℤ o.discussion_seconds (pos 30)) "discussionSeconds"

-- Every violation, in the order of the source.
unfoldable pub options_errors : Options → ℤ → List FieldError
options_errors o n =
    player_count_errors n
    ++ (max_players_errors o n
        ++ (mafia_count_errors o
            ++ (majority_errors o n ++ (plain_citizen_errors o n ++ seconds_errors o))))

abbrev pub error_of : List FieldError → Option Failure
error_of [] = none
error_of (e ∷ es) = some (validation_errors (e ∷ es))

unfoldable pub validate_options : Options → ℤ → Option Failure
unfolding options_errors
validate_options o player_count = error_of (options_errors o player_count)

-- A test that returns an error when it fails.
abbrev pub require : Bool → Failure → Option Failure
require true f = none
require false f = some f

unfoldable pub ensure_host : State → PlayerId → Option Failure
ensure_host s sender = require (sender === s.host_id) (errf ErrorCode.permission_denied)

unfoldable pub ensure_phase : State → List Phase → Option Failure
unfolding any
ensure_phase s allowed = require (any (is_phase s.phase) allowed) (errf ErrorCode.wrong_phase)

role_check : Role → Option Player → Option Failure
role_check role none = some (errf ErrorCode.unknown_player)
role_check role (some p) = require (is_role p.role role) (errf ErrorCode.role_mismatch)

unfoldable pub ensure_role : State → PlayerId → Role → Option Failure
unfolding role_check
ensure_role s sender role = role_check role (find_player sender s.players)

alive_check : Option Player → Option Failure
alive_check none = some (errf ErrorCode.unknown_player)
alive_check (some p) = require p.alive (errf ErrorCode.dead_player)

-- The first failing check decides.
abbrev or_else : Option Failure → Option Failure → Option Failure
or_else none k = k
or_else (some f) k = some f

unfoldable pub ensure_alive : State → List PlayerId → Option Failure
unfolding alive_check
ensure_alive s [] = none
ensure_alive s (i ∷ is) = or_else (alive_check (find_player i s.players)) (ensure_alive s is)
