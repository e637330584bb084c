-- ===== src/Ws/Route/Reach.antt =====
-- Whom an event reaches.
use mafia_game_party.Prelude.{
  Bool, true, false, not, ◌&&◌, none, some, List, [], ◌∷◌, ◌++◌, PlayerId, nobody, ◌===◌,
  if◌then◌else◌, lookup, ◌≡◌, refl, inl, inr, arith, Option-cases,
}
use mafia_game_party.Game.Types.{Role, is_role}
use mafia_game_party.Game.State.{Player, State}
use mafia_game_party.Game.Event.{Visibility, EventEnvelope}
use mafia_game_party.Ws.Protocol.{ClientId}
use mafia_game_party.Ws.Registry.{
  Client, Registry, is_public, member, by_player_safe, snapshot_public, snapshot_players, entries,
}
use mafia_game_party.Ws.Registry.Indices.{IsIndexed, listed, lookup-listed}
use mafia_game_party.Ws.Route.{route, route_event, mafia_clients}

-- Whether a living mafia player has the id.
unfoldable pub is_living_mafia : PlayerId → List Player → Bool
is_living_mafia i [] = false
is_living_mafia i (p ∷ ps) =
    if p.alive && (is_role p.role Role.mafia && p.id === i) then true else is_living_mafia i ps

-- Who may see an event: everyone a public one, the player it is for a private one, and the living
-- mafia the mafia's.
unfoldable pub may_see : Visibility → PlayerId → State → Client → Bool
may_see Visibility.public i s c = true
may_see Visibility.player i s c = not (is_public c.kind) && c.player_id === i
may_see Visibility.role_mafia i s c =
    not (is_public c.kind) && is_living_mafia c.player_id s.players

member-append :
    (i : ClientId) (is js : List ClientId)
    → member i (is ++ js) ≡ (if member i is then true else member i js)
unfolding member
member-append i [] js = refl
member-append i (k ∷ is) js = ground (arith, member-append i is js)

-- the first player whose entry is the client
unfoldable pub key_of : ClientId → List (PlayerId × ClientId) → PlayerId
key_of i [] = nobody
key_of i ((p, j) ∷ m) = if j === i then p else key_of i m

pub member-entries :
    (i : ClientId) (m : List (PlayerId × ClientId))
    → member i (entries m) ≡ true
    → listed (key_of i m) i m ≡ true
unfolding member entries listed key_of
member-entries i [] h = ground arith
member-entries i ((q, j) ∷ m) h = ground (arith, member-entries i m)

listed-entries :
    (p : PlayerId) (i : ClientId) (m : List (PlayerId × ClientId))
    → listed p i m ≡ true
    → member i (entries m) ≡ true
unfolding member entries listed
listed-entries p i [] h = ground arith
listed-entries p i ((q, j) ∷ m) h = ground (arith, listed-entries p i m)

module _ (r : Registry) (v : IsIndexed r) where
  -- The client that the index has for a player is the registered one that plays it.
  by_player_iff :
      (p : PlayerId) (j k : ClientId)
      → lookup p r.by_player_id ≡ some k
      → (k === j) ≡ (
          member j r.by_id && (not (is_public (r.clients j).kind) && (r.clients j).player_id === p))
  by_player_iff p j k e =
      let l = lookup-listed p k r.by_player_id e in
      let in_ids = v.entry_registered p k l in
      let plays = v.entry_player p k l in
      let plays_p = v.entry_bound p k l in ground (arith, e, in_ids, plays, plays_p, v.has_entry j)

  by_player_none :
      (p : PlayerId) (j : ClientId)
      → lookup p r.by_player_id ≡ none
      → (member j r.by_id && (not (is_public (r.clients j).kind) && (r.clients j).player_id === p))
        ≡ false
  by_player_none p j e = ground (arith, e, v.has_entry j)

  reach_all :
      (j : ClientId)
      → member j (snapshot_public r ++ snapshot_players r) ≡ (member j r.by_id && true)
  unfolding snapshot_public snapshot_players
  reach_all j =
      let k = key_of j r.by_player_id in
      ground (
        arith,
        member-append j r.publics (entries r.by_player_id),
        v.public_index j,
        member-entries j r.by_player_id,
        v.entry_registered k j,
        v.has_entry j,
        lookup-listed (r.clients j).player_id j r.by_player_id,
        listed-entries (r.clients j).player_id j r.by_player_id,
      )

  reach_mafia :
      (j : ClientId) (ps : List Player)
      → member j (mafia_clients ps r) ≡ (
          member j r.by_id
          && (not (is_public (r.clients j).kind) && is_living_mafia (r.clients j).player_id ps))
  unfolding mafia_clients is_living_mafia member by_player_safe
  reach_mafia j [] = ground arith
  reach_mafia j (p ∷ ps) = elim (Option-cases (lookup p.id r.by_player_id)) [
    | inl e ↦ ground (arith, e, reach_mafia j ps, by_player_none p.id j e)
    | inr (k, e) ↦ ground (arith, e, reach_mafia j ps, by_player_iff p.id j k e)
  ]

  reach_player :
      (p : PlayerId) (j : ClientId) (s : State)
      → member j (route Visibility.player p s r)
        ≡ (member j r.by_id && may_see Visibility.player p s (r.clients j))
  unfolding route may_see member by_player_safe
  reach_player p j s = elim (Option-cases (lookup p r.by_player_id)) [
    | inl e ↦ ground (arith, e, by_player_none p j e)
    | inr (k, e) ↦ ground (arith, e, by_player_iff p j k e)
  ]

  reach :
      (w : Visibility) (p : PlayerId) (s : State) (j : ClientId)
      → member j (route w p s r) ≡ (member j r.by_id && may_see w p s (r.clients j))
  unfolding route may_see
  reach Visibility.public p s j = reach_all j
  reach Visibility.player p s j = reach_player p j s
  reach Visibility.role_mafia p s j = reach_mafia j s.players

-- If the hub's indices agree, an event is sent to exactly these registered clients: a public one to
-- all, those that play a dead player included, a private one to the client that plays its player,
-- and one of the mafia to the clients that play a living mafia player.
pub route_event-reach :
    (env : EventEnvelope) (s : State) (r : Registry) (j : ClientId)
    → IsIndexed r
    → member j (route_event env s r)
      ≡ (member j r.by_id && may_see env.visibility env.player_id s (r.clients j))
unfolding route_event
route_event-reach env s r j v = reach r v env.visibility env.player_id s j
