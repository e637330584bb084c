-- ===== src/Session/HostAuthority.antt =====
-- internal/session/host_authority.go: the host's seat. The state is the token that is out, "" if
-- there is none.
pub mod Seat
use mafia_game_party.Prelude.{
  Bool, true, false, not, ◌&&◌, ◌||◌, Option, none, some, String, ◌===◌, if◌then◌else◌,
}
use mafia_game_party.Game.Error.{ErrorCode, Failure, errf}
use mafia_game_party.Game.Validation.{require}
use mafia_game_party.Game.Engine.{Result, ok, err}

draw_token : Option String → String × Result String
draw_token none = ("", err (errf ErrorCode.validation))
draw_token (some t) = (t, ok t)

-- `draw` is the token that the random source makes, `none` if it fails.
unfoldable pub claim : Option String → String → String × Result String
unfolding draw_token
claim draw current =
    if current === "" then draw_token draw else (current, err (errf ErrorCode.permission_denied))

unfoldable pub verify : String → String → Option Failure
verify t current =
    require (not (t === "" || (current === "" || not (t === current))))
      (errf ErrorCode.permission_denied)

unfoldable pub release : String → String → String
release t current = if not (t === "") && t === current then "" else current

unfoldable pub is_claimed : String → Bool
is_claimed current = not (current === "")
