-- ===== src/Http.antt =====
-- internal/transport/http: the server's dependencies, the finished games as JSON values, and the
-- addresses that are printed. The files that are served, the JSON text and the log are left out.
pub mod Results
pub mod Routes
use mafia_game_party.Prelude.{
  ℕ, suc, ◌==◌, ℤ, pos, ltb_ℤ, Bool, true, false, not, ◌||◌, Option, none, some, List, [], ◌∷◌,
  ◌++◌, map, String, PlayerId, ◌===◌, if◌then◌else◌,
}
use mafia_game_party.Prelude.Time.{Time}
use mafia_game_party.Game.Types.{Team, EndReason, Options}
use mafia_game_party.Game.State.{Player}
use mafia_game_party.Persistence.{PersistedMember, GameResult, Store}

-- What `Config` says of its dependencies; a logger that is missing is the default one.
pub record Config : Type 0 where
  pub addr : String
  pub has_hub : Bool
  pub has_store : Bool
  pub has_assets : Bool

pub data ConfigError : Type 0 where
  missing_addr missing_hub missing_store missing_assets : ConfigError

-- `New`: the first dependency that is missing.
unfoldable pub new_server : Config → Option ConfigError
new_server cfg =
    if cfg.addr === ""
    then some missing_addr
    else if not cfg.has_hub
    then some missing_hub
    else if not cfg.has_store
    then some missing_store
    else if not cfg.has_assets
    then some missing_assets
    else none

pub record MemberEntry : Type 0 where
  pub id : PlayerId
  pub name : String
  pub joined_at : Time

pub record ResultEntry : Type 0 where
  pub game_id : String
  pub started_at : Time
  pub ended_at : Time
  pub winner : Option Team
  pub end_reason : String
  pub options : Options
  pub members : List MemberEntry
  pub reveal : List Player

unfoldable pub end_reason_to_string : EndReason → String
end_reason_to_string EndReason.mafia_win = "MAFIA_WIN"
end_reason_to_string EndReason.citizen_win = "CITIZEN_WIN"
end_reason_to_string EndReason.host_force_end = "HOST_FORCE_END"

abbrev pub member_entry : PersistedMember → MemberEntry
member_entry m = record { id = m.id; name = m.name; joined_at = m.joined_at }

abbrev pub member_entries : List PersistedMember → List MemberEntry
member_entries ms = map member_entry ms

abbrev pub result_entry : GameResult → ResultEntry
result_entry r = record {
  game_id = r.game_id;
  started_at = r.started_at;
  ended_at = r.ended_at;
  winner = r.winner;
  end_reason = end_reason_to_string r.end_reason;
  options = r.options;
  members = member_entries r.members;
  reveal = r.reveal;
}

unfoldable pub build_results_response : List GameResult → List ResultEntry
build_results_response [] = []
build_results_response (r ∷ rs) = result_entry r ∷ build_results_response rs

abbrev pub default_limit : ℤ
default_limit = pos 50

abbrev pub max_limit : ℤ
max_limit = pos 500

-- `http.Error` with its status, or the headers and the value of a success.
pub data Response : Type 0 where
  error_text : ℕ → String → Response
  results : List (String × String) → List ResultEntry → Response

abbrev results_headers : List (String × String)
results_headers =
    ("Content-Type", "application/json; charset=utf-8") ∷ ("Cache-Control", "no-store") ∷ []

abbrev checked_limit : Option ℤ → Option ℤ
checked_limit none = none
checked_limit (some n) = if ltb_ℤ n (pos 1) || ltb_ℤ max_limit n then none else some n

-- The limit that the query asks for, if there is one that is allowed; `atoi` is `strconv.Atoi`.
unfoldable pub limit_of : (String → Option ℤ) → String → Option ℤ
limit_of atoi v = if not (v === "") then checked_limit (atoi v) else some default_limit

abbrev pub respond : Option (List GameResult) → Response
respond none = error_text 500 "internal error"
respond (some rs) = results results_headers (build_results_response rs)

module _ (S : Store) where
  abbrev pub respond_within : Option ℤ → S.Disk → Response
  respond_within none d = error_text 400 "invalid limit"
  respond_within (some limit) d = respond (S.list_results limit d)

  -- `v` is the value of the query's parameter `limit`.
  unfoldable pub results_handler : (String → Option ℤ) → String → S.Disk → Response
  results_handler atoi v d = respond_within (limit_of atoi v) d

-- An address of `net.InterfaceAddrs`: the text of its IPv4 address, if it is an `IPNet` that has one,
-- and what net says of it.
pub record Addr : Type 0 where
  pub to4 : Option String
  pub is_loopback : Bool
  pub is_private : Bool

pub data Line : Type 0 where
  could_not_detect : Line
  http_address : String → ℤ → Line

abbrev line_of : Addr → ℤ → Option String → List Line
line_of a port none = []
line_of a port (some ip) =
    if a.is_loopback then [] else if not a.is_private then [] else http_address ip port ∷ []

unfoldable pub lan_lines : List Addr → ℤ → List Line
lan_lines [] port = []
lan_lines (a ∷ rest) port = line_of a port a.to4 ++ lan_lines rest port

abbrev or_localhost : List Line → ℤ → List Line
or_localhost [] port = http_address "localhost" port ∷ []
or_localhost (l ∷ ls) port = l ∷ ls

-- The interfaces cannot be read, or are these.
unfoldable pub print_lan_addresses : Option (List Addr) → ℤ → List Line
print_lan_addresses none port = could_not_detect ∷ http_address "localhost" port ∷ []
print_lan_addresses (some addrs) port = or_localhost (lan_lines addrs port) port
