-- ===== src/Ws/Handler/Told.antt =====
-- What sending messages keeps of the net.
use mafia_game_party.Prelude.{
  ℕ, ◌==◌, Bool, true, false, Option, none, some, List, [], ◌∷◌, if◌then◌else◌,
}
use mafia_game_party.Game.State.{State}
use mafia_game_party.Game.Event.{EventEnvelope}
use mafia_game_party.Announce.{Announcement, Catalog}
use mafia_game_party.Persistence.{Store}
use mafia_game_party.Session.Types.{EventOut, RoomSnapshot, Fault, Manager}
use mafia_game_party.Ws.Protocol.{ClientId, Message}
use mafia_game_party.Ws.Route.{
  Net, enqueue, enqueue_all, push_room_state, on_event, send_event, send_announcement,
}
use mafia_game_party.Ws.Hub.{Hub, receive, call}
use mafia_game_party.Ws.Handler.{handle_submit_err, send_error}

-- A predicate of nets that sending one message keeps.
module _ (P : Net → Type 0)
    (sent : (msg : Message) (i : ClientId) (n : Net) → P n → P (enqueue msg i n)) where
  enqueue_all-keeps :
      (msg : Message) (is : List ClientId) (n : Net) → P n → P (enqueue_all msg is n)
  unfolding enqueue_all
  enqueue_all-keeps msg [] n p = p
  enqueue_all-keeps msg (i ∷ is) n p = enqueue_all-keeps msg is (enqueue msg i n) (sent msg i n p)

  either-keeps : (b : Bool) (n m : Net) → P n → P m → P (if b then n else m)
  either-keeps true n m p q = p
  either-keeps false n m p q = q

  send_event-keeps : (e : Option EventEnvelope) (s : State) (n : Net) → P n → P (send_event e s n)
  send_event-keeps none s n p = p
  send_event-keeps (some env) s n p = enqueue_all-keeps _ _ n p

  send_announcement-keeps : (a : Option Announcement) (n : Net) → P n → P (send_announcement a n)
  send_announcement-keeps none n p = p
  send_announcement-keeps (some a) n p = either-keeps _ _ n (enqueue_all-keeps _ _ n p) p

  on_event-keeps : (out : EventOut) (n : Net) → P n → P (on_event out n)
  unfolding on_event
  on_event-keeps out n p =
      send_announcement-keeps out.announcement _ (send_event-keeps out.envelope out.state n p)

  receive-keeps : (id : ℕ) (outs : List (ℕ × EventOut)) (n : Net) → P n → P (receive id outs n)
  unfolding receive
  receive-keeps id [] n p = p
  receive-keeps id ((h, out) ∷ outs) n p =
      receive-keeps id outs _ (either-keeps (h == id) _ n (on_event-keeps out n p) p)

  pub push_room_state-keeps :
      (i : ClientId) (snap : RoomSnapshot) (n : Net) → P n → P (push_room_state i snap n)
  unfolding push_room_state
  push_room_state-keeps i snap n p =
      let shown = either-keeps snap.room_opened _ n (sent _ i _ (sent _ i n p)) p in
      either-keeps snap.host_occupied _ _ (sent _ i _ shown) shown

  module _ (C : Catalog) (S : Store) where
    pub handle_submit_err-keeps :
        (i : ClientId) (f : Option Fault) (n : Net) → P n → P (handle_submit_err C S i f n)
    unfolding handle_submit_err send_error
    handle_submit_err-keeps i none n p = p
    handle_submit_err-keeps i (some f) n p = sent _ i _ (either-keeps _ _ n (sent _ i n p) p)

    pub call-keeps {ℓ} :
        {A : Type ℓ} (f : Manager S → Manager S × A) (h : Hub S) → P h.net → P (call f h).0.net
    unfolding call
    call-keeps f h p = receive-keeps h.subscription _ h.net p
