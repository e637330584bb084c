-- ===== src/Ws/Route/Private.antt =====
-- Whom an event does not reach.
use mafia_game_party.Prelude.{
  Bool, false, Option, none, some, List, [], ◌∷◌, ◌===◌, ◌≡◌, refl, ap, ◌∙◌, arith,
}
use mafia_game_party.Game.State.{State}
use mafia_game_party.Game.Event.{EventEnvelope}
use mafia_game_party.Announce.{Announcement}
use mafia_game_party.Session.Types.{EventOut}
use mafia_game_party.Ws.Protocol.{ClientId, Message, announce}
use mafia_game_party.Ws.Registry.{Client, is_public, member, snapshot_public}
use mafia_game_party.Ws.Registry.Indices.{IsIndexed}
use mafia_game_party.Ws.Route.{
  Net, enqueue, enqueue_all, route_event, send_event, send_announcement, on_event,
}
use mafia_game_party.Ws.Route.Reach.{may_see, route_event-reach}

enqueue-publics :
    (msg : Message) (i : ClientId) (n : Net)
    → (enqueue msg i n).registry.publics ≡ n.registry.publics
unfolding enqueue
enqueue-publics msg i n = ground arith

enqueue_all-publics :
    (msg : Message) (is : List ClientId) (n : Net)
    → (enqueue_all msg is n).registry.publics ≡ n.registry.publics
unfolding enqueue_all
enqueue_all-publics msg [] n = refl
enqueue_all-publics msg (i ∷ is) n =
    enqueue_all-publics msg is (enqueue msg i n) ∙ enqueue-publics msg i n

enqueue-other :
    (msg : Message) (i j : ClientId) (n : Net)
    → (i === j) ≡ false
    → (enqueue msg i n).registry.clients j ≡ n.registry.clients j
unfolding enqueue
enqueue-other msg i j n h = ground (arith, h)

enqueue_all-other :
    (msg : Message) (is : List ClientId) (j : ClientId) (n : Net)
    → member j is ≡ false
    → (enqueue_all msg is n).registry.clients j ≡ n.registry.clients j
unfolding enqueue_all member
enqueue_all-other msg [] j n h = refl
enqueue_all-other msg (i ∷ is) j n h =
    enqueue_all-other msg is j (enqueue msg i n) (ground (arith, h))
    ∙ enqueue-other msg i j n (ground (arith, h))

-- Whether the client may see an envelope, if there is one.
abbrev pub may_see_event : Option EventEnvelope → State → Client → Bool
may_see_event none s c = false
may_see_event (some env) s c = may_see env.visibility env.player_id s c

send_event-other :
    (e : Option EventEnvelope) (s : State) (n : Net) (j : ClientId)
    → IsIndexed n.registry
    → may_see_event e s (n.registry.clients j) ≡ false
    → (send_event e s n).registry.clients j ≡ n.registry.clients j
send_event-other none s n j v h = refl
send_event-other (some env) s n j v h =
    enqueue_all-other _ (route_event env s n.registry) j n
      (ground (arith, route_event-reach env s n.registry j v, h))

send_event-publics :
    (e : Option EventEnvelope) (s : State) (n : Net)
    → (send_event e s n).registry.publics ≡ n.registry.publics
send_event-publics none s n = refl
send_event-publics (some env) s n = enqueue_all-publics _ (route_event env s n.registry) n

send_announcement-other :
    (a : Option Announcement) (n : Net) (j : ClientId)
    → member j n.registry.publics ≡ false
    → (send_announcement a n).registry.clients j ≡ n.registry.clients j
unfolding snapshot_public
send_announcement-other none n j h = refl
send_announcement-other (some a) n j h =
    let msg = announce a.subtitle a.audio_id a.severity in
    ground (arith, enqueue_all-other msg n.registry.publics j n h)

-- If the indices agree, then what the manager tells the hub changes nothing in the channel of a client
-- that plays a player and may not see the event: private events reach no other player, and
-- announcements no player at all.
pub on_event-private :
    (out : EventOut) (n : Net) (j : ClientId)
    → IsIndexed n.registry
    → may_see_event out.envelope out.state (n.registry.clients j) ≡ false
    → is_public (n.registry.clients j).kind ≡ false
    → (on_event out n).registry.clients j ≡ n.registry.clients j
unfolding on_event
on_event-private out n j v h k =
    let told = send_event out.envelope out.state n in
    send_announcement-other out.announcement told j (
      ap (member j) (send_event-publics out.envelope out.state n)
      ∙ ground (arith, v.public_index j, k))
    ∙ send_event-other out.envelope out.state n j v h

-- If the indices agree, an event with no announcement changes nothing in the channel of any client
-- that may not see it.
pub on_event-secret :
    (env : EventEnvelope) (s : State) (n : Net) (j : ClientId)
    → IsIndexed n.registry
    → may_see env.visibility env.player_id s (n.registry.clients j) ≡ false
    → (on_event (record { envelope = some env; announcement = none; state = s }) n).registry.clients
        j
      ≡ n.registry.clients j
unfolding on_event
on_event-secret env s n j v h = send_event-other (some env) s n j v h
