-- ===== src/Session/Members.antt =====
-- internal/session/lifecycle.go: the members in the order of the game, the lobby's state, and the
-- members as the store keeps them. A Go map has no order: the list stands for one that a run may meet.
pub mod Order
pub mod Ids
use mafia_game_party.Prelude.{
  ℕ, zero, suc, Bool, true, false, Option, none, some, List, [], ◌∷◌, ◌++◌, map, String, PlayerId,
  nobody, ◌===◌, ◌&&◌, if◌then◌else◌, lookup, ltb,
}
use mafia_game_party.Prelude.Time.{Time, after}
use mafia_game_party.Game.Types.{Role, Phase}
use mafia_game_party.Game.State.{Player, State, zero_state}
use mafia_game_party.Persistence.{PersistedMember}
use mafia_game_party.Session.Types.{Member}

-- The inner loop: the new member passes those at the end, one by one, as long as they joined later. The
-- flag says that it has come to the front of the list.
unfoldable pub sink : Member → List Member → List Member × Bool
sink m [] = (m ∷ [], true)
sink m (x ∷ xs) =
    let (rest, front) = sink m xs in
    if front && after x.joined_at m.joined_at then (m ∷ x ∷ xs, true) else (x ∷ rest, false)

-- One round of the insertion sort, on the members that are sorted already.
unfoldable pub insert_by_join : Member → List Member → List Member
unfolding sink
insert_by_join m ms = (sink m ms).0

-- The rounds, with the members that are sorted already.
unfoldable pub sort_by_join : List Member → List Member → List Member
unfolding insert_by_join
sort_by_join sorted [] = sorted
sort_by_join sorted (m ∷ ms) = sort_by_join (insert_by_join m sorted) ms

-- `rest`: the members but for the host
unfoldable pub others : PlayerId → List (PlayerId × Member) → List Member
others host [] = []
others host ((id, m) ∷ members) =
    let rest = others host members in if id === host then rest else m ∷ rest

abbrev pub host_first : Option Member → List Member
host_first none = []
host_first (some h) = h ∷ []

unfoldable pub order_members : List (PlayerId × Member) → PlayerId → List Member
unfolding others sort_by_join
order_members members host =
    host_first (lookup host members) ++ sort_by_join [] (others host members)

-- `game.Player{ID: m.ID, Name: m.Name, Alive: true}`
abbrev pub player_of : Member → Player
player_of m = record { id = m.id; name = m.name; alive = true; role = Role.unset; keyword = "" }

unfoldable pub players_of : List Member → List Player
players_of [] = []
players_of (m ∷ ms) = player_of m ∷ players_of ms

unfoldable pub lobby_state : String → PlayerId → List (PlayerId × Member) → State
lobby_state game_id host members = record zero_state {
  game_id = game_id;
  phase = Phase.lobby;
  host_id = host;
  players = players_of (order_members members host);
}

abbrev pub persisted : Member → PersistedMember
persisted m = record {
  id = m.id;
  name = m.name;
  token = m.token;
  connected = m.connected;
  joined_at = m.joined_at;
}

unfoldable pub persisted_members : List (PlayerId × Member) → List PersistedMember
persisted_members [] = []
persisted_members ((id, m) ∷ members) = persisted m ∷ persisted_members members
