-- ===== src/Ws/Handler/Clients.antt =====
-- What the hub does with its clients keeps the indices in agreement.
use mafia_game_party.Prelude.{
  drop, Bool, true, false, none, List, [], ◌∷◌, PlayerId, nobody, if◌then◌else◌, lookup, ◌≡◌, ◌≢◌,
  refl, subst, inl, inr, arith, Option-cases, Bool-cases, ltb, length,
}
use mafia_game_party.Game.Types.{Options}
use mafia_game_party.Ws.Protocol.{ClientId, Message, room_closed, room_opened}
use mafia_game_party.Ws.Registry.{
  Client, out_buffer_size, Registry, store, is_public, member, remove, bind_player, unbind_player,
  entries, snapshot_public, snapshot_players,
}
use mafia_game_party.Ws.Registry.Indices.{IsIndexed, remove-IsIndexed, unbind_player-IsIndexed}
use mafia_game_party.Ws.Registry.Bind.{bind_player-IsIndexed, bind_player-remove-IsIndexed}
use mafia_game_party.Ws.Route.{
  write_next, Net, with_message, enqueue, enqueue_all, close_for, broadcast_room_opened,
  broadcast_room_closed,
}
use mafia_game_party.Ws.Hub.{cancel, hub_unregister, hub_bind_player}
use mafia_game_party.Ws.Route.Reach.{key_of, member-entries}

-- A change of a client that leaves its kind and its player.
pub store-IsIndexed :
    (i : ClientId) (c : Client) (r : Registry)
    → IsIndexed r
    → c.kind ≡ (r.clients i).kind
    → c.player_id ≡ (r.clients i).player_id
    → IsIndexed (record r { clients = store i c r.clients })
store-IsIndexed i c r v k p = record {
  public_index = λ j. ground (arith, v.public_index j);
  entry_registered = λ q j h. ground (arith, v.entry_registered q j);
  entry_player = λ q j h. ground (arith, v.entry_player q j);
  entry_bound = λ q j h. ground (arith, v.entry_bound q j);
  has_entry = λ j h l. ground (arith, v.has_entry j);
  unbound = λ j h. ground (arith, v.unbound j);
  bound = λ j h. ground (arith, v.bound j);
}

enqueue-by_id :
    (msg : Message) (i : ClientId) (n : Net)
    → ((enqueue msg i n).registry.by_id ≡ n.registry.by_id)
      × ((enqueue msg i n).registry.by_player_id ≡ n.registry.by_player_id)
unfolding enqueue
enqueue-by_id msg i n = ground arith

either-IsIndexed :
    (b : Bool) (n m : Net)
    → IsIndexed n.registry
    → IsIndexed m.registry
    → IsIndexed (if b then n else m).registry
either-IsIndexed true n m v w = v
either-IsIndexed false n m v w = w

pub enqueue-IsIndexed :
    (msg : Message) (i : ClientId) (n : Net)
    → IsIndexed n.registry
    → IsIndexed (enqueue msg i n).registry
unfolding enqueue
enqueue-IsIndexed msg i n v =
    let c = n.registry.clients i in
    let sent = store-IsIndexed i (with_message msg c) n.registry v refl refl in
    either-IsIndexed c.cancelled n _ v
      (either-IsIndexed (ltb (length c.out) out_buffer_size) _ _ sent v)

pub write_next-IsIndexed :
    (i : ClientId) (n : Net) → IsIndexed n.registry → IsIndexed (write_next i n).registry
unfolding write_next
write_next-IsIndexed i n v =
    let c = n.registry.clients i in
    store-IsIndexed i (record c { out = drop 1 c.out }) n.registry v refl refl

pub enqueue_all-IsIndexed :
    (msg : Message) (is : List ClientId) (n : Net)
    → IsIndexed n.registry
    → IsIndexed (enqueue_all msg is n).registry
unfolding enqueue_all
enqueue_all-IsIndexed msg [] n v = v
enqueue_all-IsIndexed msg (i ∷ is) n v =
    enqueue_all-IsIndexed msg is (enqueue msg i n) (enqueue-IsIndexed msg i n v)

-- All of them are registered.
unfoldable AllIn : List ClientId → List ClientId → Type 0
AllIn [] ids = Unit
AllIn (i ∷ is) ids = (member i ids ≡ true) × AllIn is ids

close_for-IsIndexed :
    (is : List ClientId) (n : Net)
    → IsIndexed n.registry
    → AllIn is n.registry.by_id
    → IsIndexed (close_for is n).registry
unfolding close_for AllIn unbind_player
close_for-IsIndexed [] n v a = v
close_for-IsIndexed (i ∷ is) n v a =
    let sent = enqueue room_closed i n in
    let same = (enqueue-by_id room_closed i n).0 in
    let sent_v = enqueue-IsIndexed room_closed i n v in
    close_for-IsIndexed is (record sent { registry = unbind_player i sent.registry })
      (unbind_player-IsIndexed i sent.registry sent_v (rw same a.0)) (rw same a.1)

AllIn-intro :
    (is ids : List ClientId)
    → ((j : ClientId) → member j is ≡ true → member j ids ≡ true)
    → AllIn is ids
unfolding AllIn member
AllIn-intro [] ids f = tt
AllIn-intro (i ∷ is) ids f =
    (f i (ground arith), AllIn-intro is ids (λ j h. f j (ground (arith, h))))

players_registered : (r : Registry) → IsIndexed r → AllIn (snapshot_players r) r.by_id
unfolding snapshot_players
players_registered r v =
    AllIn-intro (entries r.by_player_id) r.by_id
      (λ j h. v.entry_registered (key_of j r.by_player_id) j (member-entries j r.by_player_id h))

pub broadcast_room_closed-IsIndexed :
    (n : Net) → IsIndexed n.registry → IsIndexed (broadcast_room_closed n).registry
unfolding broadcast_room_closed
broadcast_room_closed-IsIndexed n v =
    let told = enqueue_all room_closed (snapshot_public n.registry) n in
    let told_v = enqueue_all-IsIndexed room_closed (snapshot_public n.registry) n v in
    close_for-IsIndexed (snapshot_players told.registry) told told_v
      (players_registered told.registry told_v)

remove_found : (i : ClientId) (r : Registry) → member i r.by_id ≡ true → (remove i r).1 ≡ true
unfolding remove
remove_found i r e = rw e refl

remove_missing : (i : ClientId) (r : Registry) → member i r.by_id ≡ false → remove i r ≡ (r, false)
unfolding remove
remove_missing i r e = rw e refl

keep_missing :
    (i : ClientId) (r : Registry)
    → member i r.by_id ≡ false
    → IsIndexed (remove i r).0
    → IsIndexed r
keep_missing i r e v = subst (λ x. IsIndexed x.0) (remove_missing i r e) v

hub_unregister-evicts :
    (i : ClientId) (n : Net)
    → IsIndexed (remove i n.registry).0
    → IsIndexed (hub_unregister i n).registry
unfolding hub_unregister
hub_unregister-evicts i n v = elim (Bool-cases (member i n.registry.by_id)) [
  | inl e ↦ rw (remove_found i n.registry e) (
      store-IsIndexed i (cancel ((remove i n.registry).0.clients i)) (remove i n.registry).0 v refl
        refl)
  | inr e ↦ rw (remove_missing i n.registry e) (keep_missing i n.registry e v)
]

pub hub_unregister-IsIndexed :
    (i : ClientId) (n : Net) → IsIndexed n.registry → IsIndexed (hub_unregister i n).registry
hub_unregister-IsIndexed i n v = hub_unregister-evicts i n (remove-IsIndexed i n.registry v)

bind_player-alone :
    (i : ClientId) (p : PlayerId) (r : Registry)
    → lookup p r.by_player_id ≡ none
    → (bind_player i p r).1 ≡ none
unfolding bind_player
bind_player-alone i p r e = rw e refl

-- If the indices agree and the client is registered and public, they agree once it plays `p`.
pub hub_bind_player-IsIndexed :
    (i : ClientId) (p : PlayerId) (n : Net)
    → IsIndexed n.registry
    → member i n.registry.by_id ≡ true
    → is_public (n.registry.clients i).kind ≡ true
    → p ≢ nobody
    → IsIndexed (hub_bind_player i p n).registry
unfolding hub_bind_player
hub_bind_player-IsIndexed i p n v reg pub_i q =
    let r = n.registry in
    elim (Option-cases (lookup p r.by_player_id)) [
      | inl e ↦ rw (bind_player-alone i p r e) (bind_player-IsIndexed i r v p reg pub_i q e)
      | inr (k, e) ↦
          let (old, w) = bind_player-remove-IsIndexed i r v p k reg pub_i q e in
          rw old (hub_unregister-evicts k (record n { registry = (bind_player i p r).0 }) w)
    ]

pub broadcast_room_opened-IsIndexed :
    (o : Options) (n : Net) → IsIndexed n.registry → IsIndexed (broadcast_room_opened o n).registry
unfolding broadcast_room_opened
broadcast_room_opened-IsIndexed o n v =
    let told = enqueue_all (room_opened o) (snapshot_public n.registry) n in
    enqueue_all-IsIndexed (room_opened o) (snapshot_players told.registry) told
      (enqueue_all-IsIndexed (room_opened o) (snapshot_public n.registry) n v)
