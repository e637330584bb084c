-- ===== src/Ws/Handler.antt =====
-- internal/transport/ws/handlers.go: the answers to what a client sends.
pub mod Clients
pub mod Told
pub mod Joined
pub mod Answers
pub mod Members
pub mod Run
pub mod Evict
use mafia_game_party.Prelude.{
  ℕ, ◌==◌, Bool, true, false, not, Option, none, some, List, [], ◌∷◌, String, PlayerId, ◌===◌,
  if◌then◌else◌, pos, ◌++◌,
}
use mafia_game_party.Game.Types.{Options}
use mafia_game_party.Game.Event.{
  Action, advance_intro, end_self_intro, submit_mafia_kill, submit_doctor_heal, submit_police_check,
  end_night_early, end_discussion_early, submit_vote, toggle_voice, force_end_game, pause_game,
  resume_game,
}
use mafia_game_party.Game.Error.{ErrorCode, Failure, engine_error, validation_errors}
use mafia_game_party.Game.Rand.{Rng}
use mafia_game_party.Game.Engine.{Result, ok, err}
use mafia_game_party.Announce.{Announcement, Severity, is_empty, Catalog, CatalogContext}
use mafia_game_party.Persistence.{Store}
use mafia_game_party.Session.Types.{
  JoinResult, EventOut, Outcome, done, fault, rejected, Fault, Manager, Call,
}
use mafia_game_party.Session.Lifecycle.{
  create_session, join_player, resume_player, start_game, claim_host, release_host, open_room,
  host_start_game, host_close_room, host_force_terminate,
}
use mafia_game_party.Session.HostOptions.{save_host_options}
use mafia_game_party.Session.Action.{submit_action}
use mafia_game_party.Session.Boot.{subscribe, unsubscribe, room_snapshot}
use mafia_game_party.Ws.Protocol.{
  ClientId, Message, YourInfo, Request, welcome, joined, snapshot, announce, error, host_token,
  room_host_occupied, protocol_version,
}
use mafia_game_party.Ws.Registry.{
  Client, Registry, new_client, new_registry, kind_to_string, add, remove, bind_player, store,
}
use mafia_game_party.Ws.Route.{
  Net, enqueue, broadcast_room_opened, broadcast_room_closed, push_room_state, on_event,
}
use mafia_game_party.Ws.Hub.{
  Hub, call, cancel, evict, hub_bind_player, hub_close, hub_new, hub_unregister, leave_first,
  on_net, read_end, receive, register, run_leaving, set_host_token, unregister_all, with_host_token,
}

-- The strings of the codes, and "INTERNAL" for what is no error of the game.
unfoldable pub code_string : ErrorCode → String
code_string ErrorCode.unset = ""
code_string ErrorCode.validation = "VALIDATION_ERROR"
code_string ErrorCode.wrong_phase = "WRONG_PHASE_ERROR"
code_string ErrorCode.permission_denied = "PERMISSION_DENIED_ERROR"
code_string ErrorCode.role_mismatch = "ROLE_MISMATCH_ERROR"
code_string ErrorCode.not_representative = "NOT_REPRESENTATIVE_ERROR"
code_string ErrorCode.dead_player = "DEAD_PLAYER_ERROR"
code_string ErrorCode.already_done = "ALREADY_DONE_ERROR"
code_string ErrorCode.invalid_target = "INVALID_TARGET_ERROR"
code_string ErrorCode.unknown_player = "UNKNOWN_PLAYER_ERROR"

unfoldable pub error_code_of : Fault → String
error_code_of (rejected (engine_error c field)) = code_string c
error_code_of (rejected (validation_errors es)) = code_string ErrorCode.validation
error_code_of _ = "INTERNAL"

-- internal/announce/error.go: what `RenderError` makes of an error that is none of the game.
abbrev err_fallback : Announcement
err_fallback = record {
  subtitle = "알 수 없는 오류가 발생했습니다.";
  audio_id = "";
  severity = Severity.warn;
  for_public_only = false;
}

-- `CatalogContext{}`
abbrev empty_context : CatalogContext
empty_context = record { get_name = λ i. i; intro_seconds_per_player = pos 0 }

unfoldable pub send_error : String → ClientId → Net → Net
send_error code i n = enqueue (error code) i n

-- The identifiers that one message may draw: those of `newID`, and the token of the host's seat.
pub record Draws : Type 0 where
  pub player_id : PlayerId
  pub game_id : String
  pub seat : Option String

module _ (C : Catalog) (S : Store) where
  abbrev pub rendered : Fault → PlayerId → Announcement
  rendered (rejected f) sender = C.render_error f sender empty_context
  rendered _ sender = err_fallback

  unfoldable pub handle_submit_err : ClientId → Option Fault → Net → Net
  handle_submit_err i none n = n
  handle_submit_err i (some f) n =
      let a = rendered f (n.registry.clients i).player_id in
      let told =
        if not (is_empty a) then enqueue (announce a.subtitle a.audio_id a.severity) i n else n in
      send_error (error_code_of f) i told

  unfoldable pub respond_join : ClientId → Outcome JoinResult → Net → Net
  respond_join i (fault f) n = handle_submit_err i (some f) n
  respond_join i (done jr) n =
      enqueue (joined jr.player_id jr.token jr.is_host) i (hub_bind_player i jr.player_id n)

  abbrev info_of : JoinResult → YourInfo
  info_of jr = record {
    role = jr.your_role;
    keyword = jr.your_keyword;
    team = jr.your_team;
    mafia_cohort = jr.mafia_cohort;
  }

  abbrev pub push_snapshot : ClientId → Outcome JoinResult → Net → Net
  push_snapshot i (fault f) n = n
  push_snapshot i (done jr) n = enqueue (snapshot jr.current_state (info_of jr) jr.is_host) i n

  abbrev pub fault_of {ℓ} : {A : Type ℓ} → Outcome A → Option Fault
  fault_of (done a) = none
  fault_of (fault f) = some f

  abbrev pub failure_of : Option Failure → Option Fault
  failure_of none = none
  failure_of (some f) = some (rejected f)

  -- `_, err := mgr.…; handleSubmitErr(c, err)`
  abbrev pub reported {ℓ} : {A : Type ℓ} → ClientId → Hub S × Outcome A → Hub S
  reported i (h, o) = on_net (handle_submit_err i (fault_of o)) h

  abbrev pub joined_by : ClientId → Hub S × Outcome JoinResult → Hub S
  joined_by i (h, o) = on_net (respond_join i o) h

  abbrev pub resumed_by : ClientId → Hub S × Outcome JoinResult → Hub S
  resumed_by i (h, o) = on_net (λ n. push_snapshot i o (respond_join i o n)) h

  -- The broadcast if the manager has agreed.
  abbrev pub then_broadcast {ℓ} : {A : Type ℓ} → ClientId → (Net → Net) → Hub S × Outcome A → Hub S
  then_broadcast i f (h, fault e) = on_net (handle_submit_err i (some e)) h
  then_broadcast i f (h, done a) = on_net f h

  abbrev pub claimed_by : ClientId → Hub S × Result String → Hub S
  claimed_by i (h, err f) = on_net (enqueue room_host_occupied i) h
  claimed_by i (h, ok t) = on_net (λ n. enqueue (host_token t) i (set_host_token i t n)) h

  module _ (encode : List ℕ → String) (R : Rng) where
    abbrev pub submit : ClientId → Action → Hub S → Hub S
    submit i a h =
        let (h', e) = call (λ m. let (m', outs, e) = submit_action R C S a m in (m', e)) h in
        on_net (handle_submit_err i (failure_of e)) h'

    unfoldable pub handle_incoming : Draws → ClientId → Request → Hub S → Hub S
    handle_incoming d i Request.malformed h = on_net (send_error "VALIDATION_ERROR" i) h
    handle_incoming d i Request.unknown_type h = on_net (send_error "VALIDATION_ERROR" i) h
    handle_incoming d i Request.subscribe_public h = h
    handle_incoming d i (Request.create_session name) h =
        joined_by i (call (create_session encode C S d.player_id d.game_id name) h)
    handle_incoming d i (Request.join name) h =
        joined_by i (call (join_player encode C S d.player_id name) h)
    handle_incoming d i (Request.resume token) h = resumed_by i (call (resume_player S token) h)
    handle_incoming d i (Request.host_start o) h =
        reported i (call (start_game R C S (h.net.registry.clients i).player_id o) h)
    handle_incoming d i Request.advance_intro h =
        submit i (advance_intro (h.net.registry.clients i).player_id) h
    handle_incoming d i Request.end_self_intro h =
        submit i (end_self_intro (h.net.registry.clients i).player_id) h
    handle_incoming d i Request.end_night h =
        submit i (end_night_early (h.net.registry.clients i).player_id) h
    handle_incoming d i Request.end_discussion h =
        submit i (end_discussion_early (h.net.registry.clients i).player_id) h
    handle_incoming d i Request.force_end h =
        submit i (force_end_game (h.net.registry.clients i).player_id) h
    handle_incoming d i Request.pause h =
        submit i (pause_game (h.net.registry.clients i).player_id) h
    handle_incoming d i Request.resume_game h =
        submit i (resume_game (h.net.registry.clients i).player_id) h
    handle_incoming d i (Request.mafia_kill target) h =
        submit i (submit_mafia_kill (h.net.registry.clients i).player_id target) h
    handle_incoming d i (Request.doctor_heal target) h =
        submit i (submit_doctor_heal (h.net.registry.clients i).player_id target) h
    handle_incoming d i (Request.police_check target) h =
        submit i (submit_police_check (h.net.registry.clients i).player_id target) h
    handle_incoming d i (Request.vote target) h =
        submit i (submit_vote (h.net.registry.clients i).player_id target) h
    handle_incoming d i (Request.toggle_voice on) h =
        submit i (toggle_voice (h.net.registry.clients i).player_id on) h
    handle_incoming d i Request.host_claim h = claimed_by i (call (claim_host S d.seat) h)
    handle_incoming d i (Request.host_open_room o) h =
        then_broadcast i (broadcast_room_opened o)
          (call (open_room R C S d.game_id (h.net.registry.clients i).host_token o) h)
    handle_incoming d i Request.host_start_room h =
        reported i (call (host_start_game R C S (h.net.registry.clients i).host_token) h)
    handle_incoming d i Request.host_terminate_room h =
        reported i (call (host_force_terminate R C S (h.net.registry.clients i).host_token) h)
    handle_incoming d i Request.host_close_room h =
        then_broadcast i broadcast_room_closed
          (call (host_close_room S (h.net.registry.clients i).host_token) h)
    handle_incoming d i (Request.host_save_options o) h =
        let (h', e) = call (save_host_options S (h.net.registry.clients i).host_token o) h in
        on_net (handle_submit_err i (failure_of e)) h'
