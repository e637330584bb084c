-- ===== src/Ws/Route.antt =====
-- internal/transport/ws/dispatch.go and `enqueue` of writer.go: which client gets which message. A
-- Go map is read in the order of its list.
pub mod Reach
pub mod Private
pub mod Audience
use mafia_game_party.Prelude.{
  ℕ, Bool, true, false, not, ◌&&◌, Option, none, some, List, [], ◌∷◌, ◌++◌, String, PlayerId,
  nobody, if◌then◌else◌, length, ltb, drop,
}
use mafia_game_party.Game.Types.{Role, is_role, Team, Options}
use mafia_game_party.Game.State.{Player, State}
use mafia_game_party.Game.Event.{Visibility, EventEnvelope}
use mafia_game_party.Announce.{Announcement, is_empty}
use mafia_game_party.Session.Types.{EventOut, RoomSnapshot}
use mafia_game_party.Ws.Protocol.{
  ClientId, Message, YourInfo, build_event_payload, visibility_to_string, snapshot, event, announce,
  room_opened, room_host_occupied, room_closed,
}
use mafia_game_party.Ws.Registry.{
  Client, Registry, store, out_buffer_size, by_player_safe, snapshot_public, snapshot_players,
  unbind_player,
}

-- `leaving` are the clients for whom a goroutine that unregisters them has been started.
pub record Net : Type 0 where
  pub registry : Registry
  pub leaving : List ClientId

abbrev pub with_message : Message → Client → Client
with_message msg c = record c { out = c.out ++ msg ∷ [] }

unfoldable pub enqueue : Message → ClientId → Net → Net
enqueue msg i n =
    let c = n.registry.clients i in
    if c.cancelled
    then n
    else if ltb (length c.out) out_buffer_size
    then record n {
      registry = record n.registry { clients = store i (with_message msg c) n.registry.clients };
    }
    else record n { leaving = n.leaving ++ i ∷ [] }

-- A round of `writeLoop`: the message at the front of the client's channel is written to its connection.
-- `select` may still take a message whose client's context is done. A failure ends the loop and closes
-- the connection, which the end of the read loop follows.
unfoldable pub write_next : ClientId → Net → Net
write_next i n =
    let c = n.registry.clients i in
    record n {
      registry = record n.registry {
        clients = store i (record c { out = drop 1 c.out }) n.registry.clients;
      };
    }

unfoldable pub enqueue_all : Message → List ClientId → Net → Net
enqueue_all msg [] n = n
enqueue_all msg (i ∷ is) n = enqueue_all msg is (enqueue msg i n)

unfoldable pub broadcast_room_opened : Options → Net → Net
broadcast_room_opened o n =
    let n' = enqueue_all (room_opened o) (snapshot_public n.registry) n in
    enqueue_all (room_opened o) (snapshot_players n'.registry) n'

-- the loop over the players
unfoldable pub close_for : List ClientId → Net → Net
close_for [] n = n
close_for (i ∷ is) n =
    let n' = enqueue room_closed i n in
    close_for is (record n' { registry = unbind_player i n'.registry })

unfoldable pub broadcast_room_closed : Net → Net
broadcast_room_closed n =
    let n' = enqueue_all room_closed (snapshot_public n.registry) n in
    close_for (snapshot_players n'.registry) n'

-- `yourInfo{}`
abbrev pub no_info : YourInfo
no_info = record { role = Role.unset; keyword = ""; team = Team.unset; mafia_cohort = [] }

unfoldable pub push_room_state : ClientId → RoomSnapshot → Net → Net
push_room_state i snap n =
    let n' =
      if snap.room_opened
      then enqueue (snapshot snap.state no_info false) i (enqueue (room_opened snap.options) i n)
      else n in
    if snap.host_occupied then enqueue room_host_occupied i n' else n'

abbrev pub one_of : Option ClientId → List ClientId
one_of none = []
one_of (some i) = i ∷ []

abbrev pub cons_some : Option ClientId → List ClientId → List ClientId
cons_some none is = is
cons_some (some i) is = i ∷ is

-- the loop over the players for the mafia's events
unfoldable pub mafia_clients : List Player → Registry → List ClientId
mafia_clients [] r = []
mafia_clients (p ∷ ps) r =
    let rest = mafia_clients ps r in
    if p.alive && is_role p.role Role.mafia then cons_some (by_player_safe p.id r) rest else rest

unfoldable pub route : Visibility → PlayerId → State → Registry → List ClientId
route Visibility.public i s r = snapshot_public r ++ snapshot_players r
route Visibility.player i s r = one_of (by_player_safe i r)
route Visibility.role_mafia i s r = mafia_clients s.players r

unfoldable pub route_event : EventEnvelope → State → Registry → List ClientId
route_event env s r = route env.visibility env.player_id s r

abbrev pub send_event : Option EventEnvelope → State → Net → Net
send_event none s n = n
send_event (some env) s n =
    enqueue_all (event (visibility_to_string env.visibility) (build_event_payload env.event))
      (route_event env s n.registry) n

abbrev pub send_announcement : Option Announcement → Net → Net
send_announcement none n = n
send_announcement (some a) n =
    if not (is_empty a) && a.for_public_only
    then enqueue_all (announce a.subtitle a.audio_id a.severity) (snapshot_public n.registry) n
    else n

unfoldable pub on_event : EventOut → Net → Net
on_event out n = send_announcement out.announcement (send_event out.envelope out.state n)
