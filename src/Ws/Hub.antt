-- ===== src/Ws/Hub.antt =====
-- internal/transport/ws/hub.go, and what handlers.go does when a client becomes a player and when
-- its read loop ends: a client comes and leaves.
use mafia_game_party.Prelude.{
  ℕ, ◌==◌, Bool, true, false, not, Option, none, some, List, [], ◌∷◌, String, PlayerId, ◌===◌,
  if◌then◌else◌, ◌++◌,
}
use mafia_game_party.Persistence.{Store}
use mafia_game_party.Session.Types.{EventOut, Manager}
use mafia_game_party.Session.Lifecycle.{release_host}
use mafia_game_party.Session.Boot.{subscribe, unsubscribe, room_snapshot}
use mafia_game_party.Ws.Protocol.{ClientId, welcome, protocol_version}
use mafia_game_party.Ws.Registry.{
  Client, new_client, new_registry, kind_to_string, add, remove, bind_player, store,
}
use mafia_game_party.Ws.Route.{Net, enqueue, push_room_state, on_event}

abbrev pub cancel : Client → Client
cancel c = record c { cancelled = true }

unfoldable pub hub_unregister : ClientId → Net → Net
hub_unregister i n =
    let (r, found) = remove i n.registry in
    if found
    then record n { registry = record r { clients = store i (cancel (r.clients i)) r.clients } }
    else n

abbrev pub evict : Option ClientId → Net → Net
evict none n = n
evict (some old) n = hub_unregister old n

unfoldable pub hub_bind_player : ClientId → PlayerId → Net → Net
hub_bind_player i p n =
    let (r, old) = bind_player i p n.registry in evict old (record n { registry = r })

abbrev pub leave_first : List ClientId → Net → Net
leave_first [] n = n
leave_first (i ∷ is) n = hub_unregister i (record n { leaving = is })

-- The first goroutine that `enqueue` has started runs.
unfoldable pub run_leaving : Net → Net
run_leaving n = leave_first n.leaving n

abbrev pub with_host_token : String → Client → Client
with_host_token t c = record c { host_token = t }

abbrev pub set_host_token : ClientId → String → Net → Net
set_host_token i t n = record n {
  registry = record n.registry {
    clients = store i (with_host_token t (n.registry.clients i)) n.registry.clients;
  };
}

unfoldable pub unregister_all : List ClientId → Net → Net
unregister_all [] n = n
unregister_all (i ∷ is) n = unregister_all is (hub_unregister i n)

pub record Hub (S : Store) : Type 0 where
  pub manager : Manager S
  pub net : Net
  pub subscription : ℕ
  pub closed : Bool

-- The hub's handler gets what the manager delivers to its subscription.
unfoldable pub receive : ℕ → List (ℕ × EventOut) → Net → Net
receive id [] n = n
receive id ((h, out) ∷ rest) n = receive id rest (if h == id then on_event out n else n)

module _ {S : Store} where
  -- A call of the manager: the subscribers are told before it returns.
  unfoldable pub call {ℓ} : {A : Type ℓ} → (Manager S → Manager S × A) → Hub S → Hub S × A
  call f h =
      let (m, a) = f (record h.manager { delivered = [] }) in
      (
        record h {
          manager = record m { delivered = h.manager.delivered ++ m.delivered };
          net = receive h.subscription m.delivered h.net;
        },
        a,
      )

  abbrev pub on_net : (Net → Net) → Hub S → Hub S
  on_net f h = record h { net = f h.net }

  -- A connection comes, `i` the id that is drawn for it; after the close it is refused.
  unfoldable pub register : ClientId → Hub S → Hub S
  register i h =
      if h.closed
      then h
      else let n = record h.net { registry = add i new_client h.net.registry } in
        let welcomed = enqueue (welcome i (kind_to_string new_client.kind) protocol_version) i n in
        record h { net = push_room_state i (room_snapshot S h.manager) welcomed }

  -- The end of the read loop: the seat is given back, and the client goes.
  unfoldable pub read_end : ClientId → Hub S → Hub S
  read_end i h =
      let t = (h.net.registry.clients i).host_token in
      let h' =
        if not (t === "")
        then record h { manager = release_host S t h.manager; net = set_host_token i "" h.net }
        else h in
      on_net (hub_unregister i) h'

  -- `New` subscribes the hub.
  unfoldable pub hub_new : Manager S → Hub S
  hub_new m =
      let (m', id) = subscribe S m in
      record {
        manager = m';
        net = record { registry = new_registry; leaving = [] };
        subscription = id;
        closed = false;
      }

  -- `closeOnce`
  unfoldable pub hub_close : Hub S → Hub S
  unfolding unregister_all
  hub_close h = if h.closed then h else record h {
    closed = true;
    manager = unsubscribe S h.subscription h.manager;
    net = unregister_all h.net.registry.by_id h.net;
  }
