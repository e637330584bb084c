-- ===== src/Ws/Handler/Run.antt =====
-- Whatever happens to the hub, its clients and the members stay in order.
use mafia_game_party.Prelude.{
  ℕ, Bool, true, false, none, some, List, [], ◌∷◌, String, nobody, ◌===◌, not, if◌then◌else◌,
  Bool-cases, inl, inr, ◌≡◌, ◌≢◌, refl, arith,
}
use mafia_game_party.Prelude.Time.{Time}
use mafia_game_party.Game.State.{State}
use mafia_game_party.Game.Event.{EventEnvelope}
use mafia_game_party.Game.Rand.{Rng}
use mafia_game_party.Announce.{Catalog}
use mafia_game_party.Persistence.{Store}
use mafia_game_party.Session.Types.{Manager}
use mafia_game_party.Session.Members.Ids.{HaveIds}
use mafia_game_party.Session.Lifecycle.{release_host}
use mafia_game_party.Session.Action.{tick_session}
use mafia_game_party.Session.Action.Ids.{tick_session-HaveIds}
use mafia_game_party.Session.Boot.{room_snapshot, subscribe, unsubscribe}
use mafia_game_party.Ws.Protocol.{ClientId, Request}
use mafia_game_party.Ws.Registry.{member}
use mafia_game_party.Ws.Registry.Indices.{IsIndexed, add-IsIndexed, new_registry-IsIndexed}
use mafia_game_party.Ws.Route.{Net, on_event, write_next}
use mafia_game_party.Ws.Route.Reach.{may_see}
use mafia_game_party.Ws.Route.Private.{on_event-secret}
use mafia_game_party.Ws.Hub.{
  Hub, call, on_net, with_host_token, set_host_token, register, read_end, hub_new, hub_close,
  unregister_all, run_leaving, leave_first,
}
use mafia_game_party.Ws.Handler.{Draws, handle_incoming}
use mafia_game_party.Ws.Handler.Clients.{
  store-IsIndexed, enqueue-IsIndexed, write_next-IsIndexed, hub_unregister-IsIndexed,
}
use mafia_game_party.Ws.Handler.Told.{call-keeps, push_room_state-keeps}
use mafia_game_party.Ws.Handler.Members.{handle_incoming-HaveIds}
use mafia_game_party.Ws.Handler.Answers.{Indexed, IsReady, is_joining, handle_incoming-IsIndexed}

-- What happens to the hub: a connection comes, a message is read, a read loop ends, a goroutine that
-- unregisters a client runs, a write loop writes a message, the session's ticker fires, the hub closes.
pub data HubCall : Type 0 where
  connected : ClientId → HubCall
  received : Draws → ClientId → Request → HubCall
  ended : ClientId → HubCall
  left : HubCall
  written : ClientId → HubCall
  ticked : Time → HubCall
  closing : HubCall

pub record IsConsistent {S : Store} (h : Hub S) : Type 0 where
  pub indices : IsIndexed h.net.registry
  pub ids : HaveIds h.manager.sess.members

leave_first-IsIndexed : (is : List ClientId) (n : Net) → Indexed n → Indexed (leave_first is n)
leave_first-IsIndexed [] n v = v
leave_first-IsIndexed (i ∷ is) n v = hub_unregister-IsIndexed i (record n { leaving = is }) v

either-IsConsistent :
    {S : Store} (b : Bool) (h g : Hub S)
    → IsConsistent h
    → IsConsistent g
    → IsConsistent (if b then h else g)
either-IsConsistent true h g v w = v
either-IsConsistent false h g v w = w

module _ (C : Catalog) (S : Store) where
  pub hub_new-IsConsistent : (m : Manager S) → HaveIds m.sess.members → IsConsistent (hub_new m)
  unfolding hub_new subscribe
  hub_new-IsConsistent m k = record { indices = new_registry-IsIndexed; ids = k }

  register-IsIndexed :
      (i : ClientId) (h : Hub S)
      → Indexed h.net
      → member i h.net.registry.by_id ≡ false
      → Indexed (register i h).net
  unfolding register
  register-IsIndexed i h v f = elim (Bool-cases h.closed) [
    | inl e ↦ rw e v
    | inr e ↦ rw e (
        push_room_state-keeps Indexed enqueue-IsIndexed i (room_snapshot S h.manager) _
          (enqueue-IsIndexed _ i _ (add-IsIndexed i h.net.registry v f)))
  ]

  register-manager : (i : ClientId) (h : Hub S) → (register i h).manager ≡ h.manager
  unfolding register
  register-manager i h = ground arith

  register-IsConsistent :
      (i : ClientId) (h : Hub S)
      → IsConsistent h
      → member i h.net.registry.by_id ≡ false
      → IsConsistent (register i h)
  register-IsConsistent i h v f = record {
    indices = register-IsIndexed i h v.indices f;
    ids = rw (register-manager i h) v.ids;
  }

  run_leaving-IsIndexed : (n : Net) → Indexed n → Indexed (run_leaving n)
  unfolding run_leaving
  run_leaving-IsIndexed n v = leave_first-IsIndexed n.leaving n v

  unregister_all-IsIndexed :
      (is : List ClientId) (n : Net) → Indexed n → Indexed (unregister_all is n)
  unfolding unregister_all
  unregister_all-IsIndexed [] n v = v
  unregister_all-IsIndexed (i ∷ is) n v =
      unregister_all-IsIndexed is _ (hub_unregister-IsIndexed i n v)

  hub_close-IsConsistent : (h : Hub S) → IsConsistent h → IsConsistent (hub_close h)
  unfolding hub_close unsubscribe
  hub_close-IsConsistent h v = either-IsConsistent h.closed _ _ v (record {
    indices = unregister_all-IsIndexed h.net.registry.by_id h.net v.indices;
    ids = v.ids;
  })

  seat_back-IsConsistent :
      (b : Bool) (i : ClientId) (t : String) (h : Hub S)
      → IsConsistent h
      → IsConsistent (
          if b
          then record h { manager = release_host S t h.manager; net = set_host_token i "" h.net }
          else h)
  unfolding release_host
  seat_back-IsConsistent false i t h v = v
  seat_back-IsConsistent true i t h v = record {
    indices =
        store-IsIndexed i (with_host_token "" (h.net.registry.clients i)) h.net.registry v.indices
          refl refl;
    ids = v.ids;
  }

  read_end-IsConsistent : (i : ClientId) (h : Hub S) → IsConsistent h → IsConsistent (read_end i h)
  unfolding read_end
  read_end-IsConsistent i h v =
      let t = (h.net.registry.clients i).host_token in
      let w = seat_back-IsConsistent (not (t === "")) i t h v in
      record { indices = hub_unregister-IsIndexed i _ w.indices; ids = w.ids }

  module _ (encode : List ℕ → String) (R : Rng) where
    abbrev ticking : Time → Manager S → Manager S × Bool
    ticking now m = (tick_session R C S now m, true)

    unfoldable pub hub_call : HubCall → Hub S → Hub S
    hub_call (connected i) h = register i h
    hub_call (received d i q) h = handle_incoming C S encode R d i q h
    hub_call (ended i) h = read_end i h
    hub_call left h = on_net run_leaving h
    hub_call (written i) h = on_net (write_next i) h
    hub_call (ticked now) h = (call (ticking now) h).0
    hub_call closing h = hub_close h

    unfoldable pub hub_run : List HubCall → Hub S → Hub S
    hub_run [] h = h
    hub_run (c ∷ cs) h = hub_run cs (hub_call c h)

    -- A connection has an id that no registered client has. A draw makes an id. Who asks to join is
    -- registered and plays nobody yet.
    unfoldable pub Fits : HubCall → Hub S → Type 0
    Fits (connected i) h = member i h.net.registry.by_id ≡ false
    Fits (received d i q) h = (d.player_id ≢ nobody) × (is_joining q ≡ true → IsReady i h.net)
    Fits (ended i) h = Unit
    Fits left h = Unit
    Fits (written i) h = Unit
    Fits (ticked now) h = Unit
    Fits closing h = Unit

    unfoldable pub AllFit : List HubCall → Hub S → Type 0
    AllFit [] h = Unit
    AllFit (c ∷ cs) h = Fits c h × AllFit cs (hub_call c h)

    hub_call-IsConsistent :
        (c : HubCall) (h : Hub S) → IsConsistent h → Fits c h → IsConsistent (hub_call c h)
    unfolding hub_call Fits call
    hub_call-IsConsistent (connected i) h v f = register-IsConsistent i h v f
    hub_call-IsConsistent (received d i q) h v f = record {
      indices = handle_incoming-IsIndexed C S encode R d i q h v.indices v.ids f.0 f.1;
      ids = handle_incoming-HaveIds C S encode R d i q h v.ids f.0;
    }
    hub_call-IsConsistent (ended i) h v f = read_end-IsConsistent i h v
    hub_call-IsConsistent left h v f = record {
      indices = run_leaving-IsIndexed h.net v.indices;
      ids = v.ids;
    }
    hub_call-IsConsistent (written i) h v f = record {
      indices = write_next-IsIndexed i h.net v.indices;
      ids = v.ids;
    }
    hub_call-IsConsistent (ticked now) h v f = record {
      indices = call-keeps Indexed enqueue-IsIndexed C S (ticking now) h v.indices;
      ids = tick_session-HaveIds R C S now (record h.manager { delivered = [] }) v.ids;
    }
    hub_call-IsConsistent closing h v f = hub_close-IsConsistent h v

    -- If the indices of the clients agree and each member stands under its own id, which is not empty,
    -- and under no other, then they do after any calls of which each fits the hub that it meets: a new
    -- connection has an id of its own, a draw makes an id, and who asks to join is registered and plays
    -- nobody yet.
    pub hub_run-IsConsistent :
        (cs : List HubCall) (h : Hub S) → IsConsistent h → AllFit cs h → IsConsistent (hub_run cs h)
    unfolding hub_run AllFit
    hub_run-IsConsistent [] h v f = v
    hub_run-IsConsistent (c ∷ cs) h v f =
        hub_run-IsConsistent cs (hub_call c h) (hub_call-IsConsistent c h v f.0) f.1

    -- Suppose that a hub is new, that each member of its manager stands under its own id, which is not
    -- empty, and under no other, and that each call fits the hub that it meets: a new connection has an
    -- id of its own, a draw makes an id, and who asks to create a session, to join or to resume is
    -- registered and plays nobody yet. Then after the calls an event that the manager tells the hub
    -- changes nothing in the channel of any client that may not see the event. The last condition is
    -- needed: the code accepts a second join on one connection.
    pub hub_keeps_secrets :
        (cs : List HubCall) (m : Manager S) (env : EventEnvelope) (s : State) (j : ClientId)
        → HaveIds m.sess.members
        → AllFit cs (hub_new m)
        → may_see env.visibility env.player_id s ((hub_run cs (hub_new m)).net.registry.clients j)
          ≡ false
        → (on_event
              (record { envelope = some env; announcement = none; state = s })
              (hub_run cs (hub_new m)).net).registry.clients
            j
          ≡ (hub_run cs (hub_new m)).net.registry.clients j
    hub_keeps_secrets cs m env s j k f h =
        let v = hub_run-IsConsistent cs (hub_new m) (hub_new-IsConsistent m k) f in
        on_event-secret env s (hub_run cs (hub_new m)).net j v.indices h
