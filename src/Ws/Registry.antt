-- ===== src/Ws/Registry.antt =====
-- internal/transport/ws/client.go: the clients and the registry's three indices of them.
pub mod Indices
pub mod Bind
use mafia_game_party.Prelude.{
  ℕ, Bool, true, false, not, ◌&&◌, Option, none, some, List, [], ◌∷◌, ◌++◌, String, PlayerId,
  nobody, ◌===◌, if◌then◌else◌, lookup, insert, map,
}
use mafia_game_party.Ws.Protocol.{ClientId, Message}

pub data ClientKind : Type 0 where
  public player : ClientKind

unfoldable pub kind_to_string : ClientKind → String
kind_to_string ClientKind.public = "PUBLIC"
kind_to_string ClientKind.player = "PLAYER"

abbrev pub is_public : ClientKind → Bool
is_public ClientKind.public = true
is_public ClientKind.player = false

-- `out` are the messages that wait in the channel, `cancelled` whether the context is done. The
-- connection itself is left out.
pub record Client : Type 0 where
  pub kind : ClientKind
  pub player_id : PlayerId
  pub host_token : String
  pub out : List Message
  pub cancelled : Bool

abbrev pub out_buffer_size : ℕ
out_buffer_size = 16

unfoldable pub new_client : Client
new_client = record {
  kind = ClientKind.public;
  player_id = nobody;
  host_token = "";
  out = [];
  cancelled = false;
}

-- The indices hold pointers: a client is shared by them, and a change through one is seen through
-- all. So `clients` is the store of the clients under their ids, and the indices hold ids.
pub record Registry : Type 0 where
  pub clients : ClientId → Client
  pub by_id : List ClientId
  pub by_player_id : List (PlayerId × ClientId)
  pub publics : List ClientId

-- `newClientRegistry()`
unfoldable pub new_registry : Registry
new_registry = record { clients = λ i. new_client; by_id = []; by_player_id = []; publics = [] }

unfoldable pub member : ClientId → List ClientId → Bool
member i [] = false
member i (j ∷ js) = if j === i then true else member i js

-- `m[id] = c` for a map of clients under their own ids
unfoldable pub include : ClientId → List ClientId → List ClientId
include i js = if member i js then js else i ∷ js

-- `delete(m, id)`
unfoldable pub exclude : ClientId → List ClientId → List ClientId
exclude i [] = []
exclude i (j ∷ js) = let rest = exclude i js in if j === i then rest else j ∷ rest

unfoldable pub delete : PlayerId → List (PlayerId × ClientId) → List (PlayerId × ClientId)
delete p [] = []
delete p ((q, i) ∷ m) = let rest = delete p m in if q === p then rest else (q, i) ∷ rest

-- The store with another client under one id.
abbrev pub store : ClientId → Client → (ClientId → Client) → ClientId → Client
store i c clients j = if j === i then c else clients j

abbrev pub is_entry : Option ClientId → ClientId → Bool
is_entry none i = false
is_entry (some j) i = j === i

-- `if existing := byPlayerID[pid]; existing == c { delete(byPlayerID, pid) }`
unfoldable pub drop_entry :
    PlayerId → ClientId → List (PlayerId × ClientId) → List (PlayerId × ClientId)
drop_entry p i m = if not (p === nobody) && is_entry (lookup p m) i then delete p m else m

-- A client that is made is public; `c` is its id.
unfoldable pub add : ClientId → Client → Registry → Registry
add i c r =
    let r' = record r { clients = store i c r.clients; by_id = include i r.by_id } in
    if is_public c.kind
    then record r' { publics = include i r.publics }
    else if not (c.player_id === nobody)
    then record r' { by_player_id = insert c.player_id i r.by_player_id }
    else r'

-- Whether there was a client is the second result.
unfoldable pub remove : ClientId → Registry → Registry × Bool
remove i r =
    if member i r.by_id
    then (
      record r {
        by_id = exclude i r.by_id;
        publics = exclude i r.publics;
        by_player_id = drop_entry (r.clients i).player_id i r.by_player_id;
      },
      true,
    )
    else (r, false)

-- Another client's id under the player, if there is one.
abbrev pub other : Option ClientId → ClientId → Option ClientId
other none i = none
other (some j) i = if not (j === i) then some j else none

abbrev pub without_other :
    Option ClientId → PlayerId → List (PlayerId × ClientId) → List (PlayerId × ClientId)
without_other none p m = m
without_other (some j) p m = delete p m

unfoldable pub bind_player : ClientId → PlayerId → Registry → Registry × Option ClientId
bind_player i p r =
    let old = other (lookup p r.by_player_id) i in
    (
      record r {
        clients =
            store i (record (r.clients i) { kind = ClientKind.player; player_id = p }) r.clients;
        publics = exclude i r.publics;
        by_player_id = insert p i (without_other old p r.by_player_id);
      },
      old,
    )

unfoldable pub unbind_player : ClientId → Registry → Registry
unbind_player i r = record r {
  clients =
      store i (record (r.clients i) { kind = ClientKind.public; player_id = nobody }) r.clients;
  by_player_id = drop_entry (r.clients i).player_id i r.by_player_id;
  publics = include i r.publics;
}

unfoldable pub by_player_safe : PlayerId → Registry → Option ClientId
by_player_safe p r = lookup p r.by_player_id

unfoldable pub snapshot_public : Registry → List ClientId
snapshot_public r = r.publics

unfoldable pub entries : List (PlayerId × ClientId) → List ClientId
entries [] = []
entries ((p, i) ∷ m) = i ∷ entries m

unfoldable pub snapshot_players : Registry → List ClientId
snapshot_players r = entries r.by_player_id
