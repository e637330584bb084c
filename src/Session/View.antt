-- ===== src/Session/View.antt =====
-- internal/session/view.go: what one viewer sees of a state.
pub mod Mask
use mafia_game_party.Prelude.{
  Bool, true, false, not, ◌&&◌, Option, none, some, List, [], ◌∷◌, String, PlayerId, nobody, ◌===◌,
  if◌then◌else◌,
}
use mafia_game_party.Game.Types.{Role, is_role, Team, team_of, Phase, is_phase}
use mafia_game_party.Game.State.{Player, State, find_player}

pub record PrivateView : Type 0 where
  pub state : State
  pub your_role : Role
  pub your_keyword : String
  pub your_team : Team
  pub mafia_cohort : List PlayerId
  pub is_host : Bool

-- `me`: the player that the viewer is, none for the public view.
unfoldable pub viewer : PlayerId → List Player → Option Player
viewer i players = if i === nobody then none else find_player i players

abbrev pub role_of : Option Player → Role
role_of none = Role.unset
role_of (some p) = p.role

abbrev pub keyword_of : Option Player → String
keyword_of none = ""
keyword_of (some p) = p.keyword

abbrev pub team_of_viewer : Option Player → Team
team_of_viewer none = Team.unset
team_of_viewer (some p) = team_of p.role

abbrev pub plays : Role → Option Player → Bool
plays role none = false
plays role (some p) = is_role p.role role

-- the first loop: roles go unless all are revealed, keywords of others always go
unfoldable pub scrub : Bool → PlayerId → Player → Player
scrub reveal_all i p =
    let q = record p { role = (if reveal_all then p.role else Role.unset) } in
    if p.id === i then q else record q { keyword = "" }

-- the second loop: the viewer's own role and keyword come back
unfoldable pub restore_self : PlayerId → Role → String → Player → Player
restore_self i role keyword p =
    if not (i === nobody) && p.id === i then record p { role = role; keyword = keyword } else p

-- the third loop, for a viewer of the mafia: the original role decides
unfoldable pub show_ally : Bool → List Player → Player → Player
show_ally is_mafia original p =
    if is_mafia && plays Role.mafia (find_player p.id original)
    then record p { role = Role.mafia }
    else p

unfoldable pub mask_player : Bool → Option Player → PlayerId → List Player → Player → Player
mask_player reveal_all me i original p =
    show_ally (plays Role.mafia me) original
      (restore_self i (role_of me) (keyword_of me) (scrub reveal_all i p))

unfoldable pub mask_players :
    Bool → Option Player → PlayerId → List Player → List Player → List Player
mask_players reveal_all me i original [] = []
mask_players reveal_all me i original (p ∷ ps) =
    mask_player reveal_all me i original p ∷ mask_players reveal_all me i original ps

unfoldable pub cohort_of : List Player → List Player → List PlayerId
cohort_of original [] = []
cohort_of original (p ∷ ps) =
    let rest = cohort_of original ps in
    if plays Role.mafia (find_player p.id original) then p.id ∷ rest else rest

unfoldable pub build_private_view : State → PlayerId → PlayerId → PrivateView
build_private_view s i host =
    let me = viewer i s.players in
    let reveal_all = is_phase s.phase Phase.end in
    record {
      state = record s {
        players = mask_players reveal_all me i s.players s.players;
        police_history = (if plays Role.police me then s.police_history else []);
      };
      your_role = role_of me;
      your_keyword = keyword_of me;
      your_team = team_of_viewer me;
      mafia_cohort = (if plays Role.mafia me then cohort_of s.players s.players else []);
      is_host = i === host && not (i === nobody);
    }
