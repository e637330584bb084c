-- ===== src/Ws/Handler/Evict.antt =====
-- The last connection of a player wins.
use mafia_game_party.Prelude.{
  Bool, true, false, not, ◌&&◌, some, PlayerId, nobody, ◌===◌, lookup, ◌≡◌, ◌≢◌, inl, inr, arith,
  Option-cases,
}
use mafia_game_party.Ws.Protocol.{ClientId}
use mafia_game_party.Ws.Registry.{Registry, is_public, member, remove, bind_player, by_player_safe}
use mafia_game_party.Ws.Registry.Indices.{IsIndexed, member-exclude}
use mafia_game_party.Ws.Route.{Net}
use mafia_game_party.Ws.Hub.{hub_unregister, hub_bind_player}
use mafia_game_party.Ws.Handler.Clients.{hub_bind_player-IsIndexed}

-- Whether the client is registered as the player.
unfoldable pub is_registered_as : PlayerId → ClientId → Registry → Bool
is_registered_as p i r =
    member i r.by_id && (not (is_public (r.clients i).kind) && (r.clients i).player_id === p)

hub_unregister-other :
    (k i : ClientId) (p : PlayerId) (n : Net)
    → (k === i) ≡ false
    → is_registered_as p i (hub_unregister k n).registry ≡ is_registered_as p i n.registry
unfolding hub_unregister remove is_registered_as
hub_unregister-other k i p n h = ground (arith, h, member-exclude k i n.registry.by_id)

bind_player-registered :
    (i : ClientId) (p : PlayerId) (r : Registry)
    → member i r.by_id ≡ true
    → is_registered_as p i (bind_player i p r).0 ≡ true
unfolding bind_player is_registered_as
bind_player-registered i p r h = ground (arith, h)

bind_player-other :
    (i k : ClientId) (p : PlayerId) (r : Registry)
    → (bind_player i p r).1 ≡ some k
    → (k === i) ≡ false
unfolding bind_player
bind_player-other i k p r h = elim (Option-cases (lookup p r.by_player_id)) [
  | inl e ↦ ground (arith, e, h)
  | inr (j, e) ↦ ground (arith, e, h)
]

hub_bind_player-registered :
    (i : ClientId) (p : PlayerId) (n : Net)
    → member i n.registry.by_id ≡ true
    → is_registered_as p i (hub_bind_player i p n).registry ≡ true
unfolding hub_bind_player
hub_bind_player-registered i p n h =
    let r = n.registry in
    let bound = record n { registry = (bind_player i p r).0 } in
    elim (Option-cases (bind_player i p r).1) [
      | inl e ↦ rw e (bind_player-registered i p r h)
      | inr (k, e) ↦
          rw (e, hub_unregister-other k i p bound (bind_player-other i k p r e))
            (bind_player-registered i p r h)
    ]

-- If the indices agree and a registered client that plays nobody yet becomes the player `p`, then the
-- index has it for `p`, and it is the only registered client that plays `p`: one that did before is
-- evicted.
pub hub_bind_player-wins :
    (i : ClientId) (p : PlayerId) (n : Net) (j : ClientId)
    → IsIndexed n.registry
    → member i n.registry.by_id ≡ true
    → is_public (n.registry.clients i).kind ≡ true
    → p ≢ nobody
    → (by_player_safe p (hub_bind_player i p n).registry ≡ some i)
      × (is_registered_as p j (hub_bind_player i p n).registry ≡ (j === i))
unfolding by_player_safe is_registered_as
hub_bind_player-wins i p n j v reg pub_i q =
    let w = hub_bind_player-IsIndexed i p n v reg pub_i q in
    let here = hub_bind_player-registered i p n reg in
    (ground (arith, here, w.has_entry i), ground (arith, here, w.has_entry i, w.has_entry j))
