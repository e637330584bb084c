-- ===== src/Ws/Handler/Answers.antt =====
-- Whatever a client sends, the indices of the clients still agree.
use mafia_game_party.Prelude.{
  ℕ, Bool, true, false, Option, some, List, [], String, nobody, ◌≡◌, ◌≢◌, refl, arith,
}
use mafia_game_party.Game.Event.{
  Action, advance_intro, end_self_intro, submit_mafia_kill, submit_doctor_heal, submit_police_check,
  end_night_early, end_discussion_early, submit_vote, toggle_voice, force_end_game, pause_game,
  resume_game,
}
use mafia_game_party.Game.Rand.{Rng}
use mafia_game_party.Game.Engine.{Result, ok, err}
use mafia_game_party.Announce.{Catalog}
use mafia_game_party.Persistence.{Store}
use mafia_game_party.Session.Types.{JoinResult, Outcome, done, fault, Fault, Manager}
use mafia_game_party.Session.Members.Ids.{HaveIds}
use mafia_game_party.Session.Lifecycle.{
  create_session, join_player, start_game, claim_host, open_room, host_start_game,
  host_force_terminate, host_close_room, resume_player,
}
use mafia_game_party.Session.Action.{submit_action}
use mafia_game_party.Session.HostOptions.{save_host_options}
use mafia_game_party.Ws.Protocol.{ClientId, Message, Request, room_host_occupied, host_token}
use mafia_game_party.Ws.Registry.{is_public, member}
use mafia_game_party.Ws.Registry.Indices.{IsIndexed}
use mafia_game_party.Ws.Route.{Net, enqueue, broadcast_room_opened, broadcast_room_closed}
use mafia_game_party.Ws.Hub.{Hub, call, with_host_token, set_host_token}
use mafia_game_party.Ws.Handler.{
  Draws, handle_submit_err, respond_join, push_snapshot, reported, then_broadcast, claimed_by,
  submit, handle_incoming, send_error,
}
use mafia_game_party.Ws.Handler.Clients.{
  store-IsIndexed, enqueue-IsIndexed, hub_bind_player-IsIndexed, broadcast_room_opened-IsIndexed,
  broadcast_room_closed-IsIndexed,
}
use mafia_game_party.Ws.Handler.Joined.{
  HasId, join_player-HasId, create_session-HasId, resume_player-HasId,
}
use mafia_game_party.Ws.Handler.Told.{handle_submit_err-keeps, call-keeps}

-- The client is registered and plays nobody yet.
unfoldable pub IsReady : ClientId → Net → Type 0
IsReady i n = (member i n.registry.by_id ≡ true) × (is_public (n.registry.clients i).kind ≡ true)

enqueue-IsReady :
    (i : ClientId) (msg : Message) (j : ClientId) (n : Net)
    → IsReady i n
    → IsReady i (enqueue msg j n)
unfolding IsReady enqueue
enqueue-IsReady i msg j n p = ground arith

-- A request to play; the others leave the client's player as it is.
unfoldable pub is_joining : Request → Bool
is_joining (Request.create_session name) = true
is_joining (Request.join name) = true
is_joining (Request.resume token) = true
is_joining _ = false

abbrev pub Indexed : Net → Type 0
Indexed n = IsIndexed n.registry

module _ (C : Catalog) (S : Store) where
  told :
      (i : ClientId) (f : Option Fault) (n : Net)
      → Indexed n
      → Indexed (handle_submit_err C S i f n)
  told = handle_submit_err-keeps Indexed enqueue-IsIndexed C S

  called {ℓ} :
      {A : Type ℓ} (f : Manager S → Manager S × A) (h : Hub S)
      → Indexed h.net
      → Indexed (call f h).0.net
  called = call-keeps Indexed enqueue-IsIndexed C S

  reported-IsIndexed {ℓ} :
      {A : Type ℓ} (i : ClientId) (f : Manager S → Manager S × Outcome A) (h : Hub S)
      → Indexed h.net
      → Indexed (reported C S i (call f h)).net
  reported-IsIndexed i f h v = told i _ _ (called f h v)

  then_broadcast-IsIndexed {ℓ} :
      {A : Type ℓ} (i : ClientId) (f : Net → Net) (a : Hub S × Outcome A)
      → ((n : Net) → Indexed n → Indexed (f n))
      → Indexed a.0.net
      → Indexed (then_broadcast C S i f a).net
  then_broadcast-IsIndexed i f (h, fault e) k v = told i (some e) h.net v
  then_broadcast-IsIndexed i f (h, done x) k v = k h.net v

  respond_join-IsIndexed :
      (i : ClientId) (o : Outcome JoinResult) (n : Net)
      → Indexed n
      → IsReady i n
      → HasId o
      → Indexed (respond_join C S i o n)
  unfolding respond_join HasId IsReady
  respond_join-IsIndexed i (fault f) n v r p = told i (some f) n v
  respond_join-IsIndexed i (done jr) n v r p =
      enqueue-IsIndexed _ i _ (hub_bind_player-IsIndexed i jr.player_id n v r.0 r.1 p)

  push_snapshot-IsIndexed :
      (i : ClientId) (o : Outcome JoinResult) (n : Net)
      → Indexed n
      → Indexed (push_snapshot C S i o n)
  push_snapshot-IsIndexed i (fault f) n v = v
  push_snapshot-IsIndexed i (done jr) n v = enqueue-IsIndexed _ i n v

  called-IsReady {ℓ} :
      {A : Type ℓ} (i : ClientId) (f : Manager S → Manager S × A) (h : Hub S)
      → IsReady i h.net
      → IsReady i (call f h).0.net
  called-IsReady i = call-keeps (IsReady i) (enqueue-IsReady i) C S

  claimed_by-IsIndexed :
      (i : ClientId) (a : Hub S × Result String)
      → Indexed a.0.net
      → Indexed (claimed_by C S i a).net
  claimed_by-IsIndexed i (h, err f) v = enqueue-IsIndexed room_host_occupied i h.net v
  claimed_by-IsIndexed i (h, ok t) v =
      let r = h.net.registry in
      enqueue-IsIndexed (host_token t) i (set_host_token i t h.net)
        (store-IsIndexed i (with_host_token t (r.clients i)) r v refl refl)

  module _ (encode : List ℕ → String) (R : Rng) where
    submit-IsIndexed :
        (i : ClientId) (a : Action) (h : Hub S)
        → Indexed h.net
        → Indexed (submit C S encode R i a h).net
    submit-IsIndexed i a h v =
        told i _ _ (called (λ m. let (m', outs, e) = submit_action R C S a m in (m', e)) h v)

    -- If the indices of the clients agree, every member and the drawn player have an id, and a client
    -- that asks to join is registered and plays nobody yet, then the indices agree after any message
    -- of that client, whatever the manager answers.
    pub handle_incoming-IsIndexed :
        (d : Draws) (i : ClientId) (q : Request) (h : Hub S)
        → IsIndexed h.net.registry
        → HaveIds h.manager.sess.members
        → d.player_id ≢ nobody
        → (is_joining q ≡ true → IsReady i h.net)
        → IsIndexed (handle_incoming C S encode R d i q h).net.registry
    unfolding handle_incoming send_error is_joining call
    handle_incoming-IsIndexed d i Request.malformed h v k p r = enqueue-IsIndexed _ i h.net v
    handle_incoming-IsIndexed d i Request.unknown_type h v k p r = enqueue-IsIndexed _ i h.net v
    handle_incoming-IsIndexed d i Request.subscribe_public h v k p r = v
    handle_incoming-IsIndexed d i (Request.create_session name) h v k p r =
        let f = create_session encode C S d.player_id d.game_id name in
        respond_join-IsIndexed i _ _ (called f h v) (called-IsReady i f h (r refl))
          (create_session-HasId encode C S d.player_id d.game_id name _ p)
    handle_incoming-IsIndexed d i (Request.join name) h v k p r =
        let f = join_player encode C S d.player_id name in
        respond_join-IsIndexed i _ _ (called f h v) (called-IsReady i f h (r refl))
          (join_player-HasId encode C S d.player_id name _ p)
    handle_incoming-IsIndexed d i (Request.resume token) h v k p r =
        let f = resume_player S token in
        push_snapshot-IsIndexed i _ _ (
          respond_join-IsIndexed i _ _ (called f h v) (called-IsReady i f h (r refl))
            (resume_player-HasId S token (record h.manager { delivered = [] }) k))
    handle_incoming-IsIndexed d i (Request.host_start o) h v k p r =
        reported-IsIndexed i (start_game R C S (h.net.registry.clients i).player_id o) h v
    handle_incoming-IsIndexed d i Request.advance_intro h v k p r =
        submit-IsIndexed i (advance_intro (h.net.registry.clients i).player_id) h v
    handle_incoming-IsIndexed d i Request.end_self_intro h v k p r =
        submit-IsIndexed i (end_self_intro (h.net.registry.clients i).player_id) h v
    handle_incoming-IsIndexed d i Request.end_night h v k p r =
        submit-IsIndexed i (end_night_early (h.net.registry.clients i).player_id) h v
    handle_incoming-IsIndexed d i Request.end_discussion h v k p r =
        submit-IsIndexed i (end_discussion_early (h.net.registry.clients i).player_id) h v
    handle_incoming-IsIndexed d i Request.force_end h v k p r =
        submit-IsIndexed i (force_end_game (h.net.registry.clients i).player_id) h v
    handle_incoming-IsIndexed d i Request.pause h v k p r =
        submit-IsIndexed i (pause_game (h.net.registry.clients i).player_id) h v
    handle_incoming-IsIndexed d i Request.resume_game h v k p r =
        submit-IsIndexed i (resume_game (h.net.registry.clients i).player_id) h v
    handle_incoming-IsIndexed d i (Request.mafia_kill t) h v k p r =
        submit-IsIndexed i (submit_mafia_kill (h.net.registry.clients i).player_id t) h v
    handle_incoming-IsIndexed d i (Request.doctor_heal t) h v k p r =
        submit-IsIndexed i (submit_doctor_heal (h.net.registry.clients i).player_id t) h v
    handle_incoming-IsIndexed d i (Request.police_check t) h v k p r =
        submit-IsIndexed i (submit_police_check (h.net.registry.clients i).player_id t) h v
    handle_incoming-IsIndexed d i (Request.vote t) h v k p r =
        submit-IsIndexed i (submit_vote (h.net.registry.clients i).player_id t) h v
    handle_incoming-IsIndexed d i (Request.toggle_voice on) h v k p r =
        submit-IsIndexed i (toggle_voice (h.net.registry.clients i).player_id on) h v
    handle_incoming-IsIndexed d i Request.host_claim h v k p r =
        claimed_by-IsIndexed i _ (called (claim_host S d.seat) h v)
    handle_incoming-IsIndexed d i (Request.host_open_room o) h v k p r =
        then_broadcast-IsIndexed i (broadcast_room_opened o) _ (broadcast_room_opened-IsIndexed o)
          (called (open_room R C S d.game_id (h.net.registry.clients i).host_token o) h v)
    handle_incoming-IsIndexed d i Request.host_start_room h v k p r =
        reported-IsIndexed i (host_start_game R C S (h.net.registry.clients i).host_token) h v
    handle_incoming-IsIndexed d i Request.host_terminate_room h v k p r =
        reported-IsIndexed i (host_force_terminate R C S (h.net.registry.clients i).host_token) h v
    handle_incoming-IsIndexed d i Request.host_close_room h v k p r =
        then_broadcast-IsIndexed i broadcast_room_closed _ broadcast_room_closed-IsIndexed
          (called (host_close_room S (h.net.registry.clients i).host_token) h v)
    handle_incoming-IsIndexed d i (Request.host_save_options o) h v k p r =
        told i _ _ (called (save_host_options S (h.net.registry.clients i).host_token o) h v)
