-- ===== src/Ws/Handler/Members.antt =====
-- Whatever a client sends, each member stands under its own id.
use mafia_game_party.Prelude.{ℕ, Option, none, some, List, [], String, nobody, ◌≡◌, ◌≢◌, refl}
use mafia_game_party.Game.Types.{Options}
use mafia_game_party.Game.Event.{
  advance_intro, end_self_intro, submit_mafia_kill, submit_doctor_heal, submit_police_check,
  end_night_early, end_discussion_early, submit_vote, toggle_voice, force_end_game, pause_game,
  resume_game,
}
use mafia_game_party.Game.Error.{Failure}
use mafia_game_party.Game.Rand.{Rng}
use mafia_game_party.Game.Engine.{Result, ok, err}
use mafia_game_party.Announce.{Catalog}
use mafia_game_party.Persistence.{Store}
use mafia_game_party.Session.Types.{Outcome, done, fault, Manager}
use mafia_game_party.Session.HostAuthority.{verify}
use mafia_game_party.Session.Members.Ids.{HaveIds}
use mafia_game_party.Session.Lifecycle.{claim_host, open_room, host_close_room}
use mafia_game_party.Session.Lifecycle.Ids.{
  join_player-HaveIds, create_session-HaveIds, resume_player-HaveIds, host_close_room-HaveIds,
  start_game-HaveIds, host_start_game-HaveIds, open_room-HaveIds, host_force_terminate-HaveIds,
}
use mafia_game_party.Session.HostOptions.{checked, save_host_options, validate_saved_host_options}
use mafia_game_party.Session.Action.Ids.{submit_action-HaveIds}
use mafia_game_party.Ws.Protocol.{ClientId, Request}
use mafia_game_party.Ws.Route.{Net, broadcast_room_opened, broadcast_room_closed}
use mafia_game_party.Ws.Hub.{Hub, call}
use mafia_game_party.Ws.Handler.{Draws, then_broadcast, claimed_by, handle_incoming}

saved-HaveIds :
    (S : Store) (f v : Option Failure) (o : Options) (m : Manager S)
    → HaveIds m.sess.members
    → HaveIds (checked S f v o m).0.sess.members
saved-HaveIds S (some f) v o m k = k
saved-HaveIds S none (some f) o m k = k
saved-HaveIds S none none o m k = k

save_host_options-HaveIds :
    (S : Store) (t : String) (o : Options) (m : Manager S)
    → HaveIds m.sess.members
    → HaveIds (save_host_options S t o m).0.sess.members
unfolding save_host_options
save_host_options-HaveIds S t o m k =
    saved-HaveIds S (verify t m.host) (validate_saved_host_options o) o m k

module _ (C : Catalog) (S : Store) where
  then_broadcast-manager {ℓ} :
      {A : Type ℓ} (i : ClientId) (f : Net → Net) (x : Hub S × Outcome A)
      → (then_broadcast C S i f x).manager ≡ x.0.manager
  then_broadcast-manager i f (h, fault e) = refl
  then_broadcast-manager i f (h, done a) = refl

  claimed_by-manager :
      (i : ClientId) (x : Hub S × Result String) → (claimed_by C S i x).manager ≡ x.0.manager
  claimed_by-manager i (h, err f) = refl
  claimed_by-manager i (h, ok t) = refl

  module _ (encode : List ℕ → String) (R : Rng) where
    pub handle_incoming-HaveIds :
        (d : Draws) (i : ClientId) (q : Request) (h : Hub S)
        → HaveIds h.manager.sess.members
        → d.player_id ≢ nobody
        → HaveIds (handle_incoming C S encode R d i q h).manager.sess.members
    unfolding handle_incoming call claim_host
    handle_incoming-HaveIds d i Request.malformed h k p = k
    handle_incoming-HaveIds d i Request.unknown_type h k p = k
    handle_incoming-HaveIds d i Request.subscribe_public h k p = k
    handle_incoming-HaveIds d i (Request.create_session name) h k p =
        create_session-HaveIds encode C S d.player_id d.game_id name
          (record h.manager { delivered = [] }) p k
    handle_incoming-HaveIds d i (Request.join name) h k p =
        join_player-HaveIds encode C S d.player_id name (record h.manager { delivered = [] }) p k
    handle_incoming-HaveIds d i (Request.resume token) h k p =
        resume_player-HaveIds S token (record h.manager { delivered = [] }) k
    handle_incoming-HaveIds d i (Request.host_start o) h k p =
        start_game-HaveIds R C S (h.net.registry.clients i).player_id o
          (record h.manager { delivered = [] }) k
    handle_incoming-HaveIds d i Request.advance_intro h k p =
        submit_action-HaveIds R C S (advance_intro (h.net.registry.clients i).player_id)
          (record h.manager { delivered = [] }) k
    handle_incoming-HaveIds d i Request.end_self_intro h k p =
        submit_action-HaveIds R C S (end_self_intro (h.net.registry.clients i).player_id)
          (record h.manager { delivered = [] }) k
    handle_incoming-HaveIds d i Request.end_night h k p =
        submit_action-HaveIds R C S (end_night_early (h.net.registry.clients i).player_id)
          (record h.manager { delivered = [] }) k
    handle_incoming-HaveIds d i Request.end_discussion h k p =
        submit_action-HaveIds R C S (end_discussion_early (h.net.registry.clients i).player_id)
          (record h.manager { delivered = [] }) k
    handle_incoming-HaveIds d i Request.force_end h k p =
        submit_action-HaveIds R C S (force_end_game (h.net.registry.clients i).player_id)
          (record h.manager { delivered = [] }) k
    handle_incoming-HaveIds d i Request.pause h k p =
        submit_action-HaveIds R C S (pause_game (h.net.registry.clients i).player_id)
          (record h.manager { delivered = [] }) k
    handle_incoming-HaveIds d i Request.resume_game h k p =
        submit_action-HaveIds R C S (resume_game (h.net.registry.clients i).player_id)
          (record h.manager { delivered = [] }) k
    handle_incoming-HaveIds d i (Request.mafia_kill t) h k p =
        submit_action-HaveIds R C S (submit_mafia_kill (h.net.registry.clients i).player_id t)
          (record h.manager { delivered = [] }) k
    handle_incoming-HaveIds d i (Request.doctor_heal t) h k p =
        submit_action-HaveIds R C S (submit_doctor_heal (h.net.registry.clients i).player_id t)
          (record h.manager { delivered = [] }) k
    handle_incoming-HaveIds d i (Request.police_check t) h k p =
        submit_action-HaveIds R C S (submit_police_check (h.net.registry.clients i).player_id t)
          (record h.manager { delivered = [] }) k
    handle_incoming-HaveIds d i (Request.vote t) h k p =
        submit_action-HaveIds R C S (submit_vote (h.net.registry.clients i).player_id t)
          (record h.manager { delivered = [] }) k
    handle_incoming-HaveIds d i (Request.toggle_voice on) h k p =
        submit_action-HaveIds R C S (toggle_voice (h.net.registry.clients i).player_id on)
          (record h.manager { delivered = [] }) k
    handle_incoming-HaveIds d i Request.host_claim h k p =
        rw (claimed_by-manager i (call (claim_host S d.seat) h)) k
    handle_incoming-HaveIds d i (Request.host_open_room o) h k p =
        rw
          (then_broadcast-manager i (broadcast_room_opened o)
            (call (open_room R C S d.game_id (h.net.registry.clients i).host_token o) h))
          (open_room-HaveIds R C S d.game_id (h.net.registry.clients i).host_token o
            (record h.manager { delivered = [] }) k)
    handle_incoming-HaveIds d i Request.host_start_room h k p =
        host_start_game-HaveIds R C S (h.net.registry.clients i).host_token
          (record h.manager { delivered = [] }) k
    handle_incoming-HaveIds d i Request.host_terminate_room h k p =
        host_force_terminate-HaveIds R C S (h.net.registry.clients i).host_token
          (record h.manager { delivered = [] }) k
    handle_incoming-HaveIds d i Request.host_close_room h k p =
        rw
          (then_broadcast-manager i broadcast_room_closed
            (call (host_close_room S (h.net.registry.clients i).host_token) h))
          (host_close_room-HaveIds S (h.net.registry.clients i).host_token
            (record h.manager { delivered = [] }) k)
    handle_incoming-HaveIds d i (Request.host_save_options o) h k p =
        save_host_options-HaveIds S (h.net.registry.clients i).host_token o
          (record h.manager { delivered = [] }) k
