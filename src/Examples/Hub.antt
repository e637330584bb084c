-- ===== src/Examples/Hub.antt =====
-- Witnesses: two clients connect, and one of them joins.
use mafia_game_party.Prelude.{
  ◌===◌, ap, lookup, true, none, some, List, [], ◌∷◌, id_dec, ◌≡◌, refl, ◌&&◌,
}
use mafia_game_party.Game.Types.{Role, Phase, phase_dec, role_dec, step_dec, NightStep}
use mafia_game_party.Game.Engine.{Engine, ok}
use mafia_game_party.Game.State.{find_player}
use mafia_game_party.Game.Apply.{apply, handle}
use mafia_game_party.Game.NightAction.{handle_mafia_kill}
use mafia_game_party.Game.Validation.{ensure_phase, ensure_role, ensure_alive}
use mafia_game_party.Game.Run.Emits.{acted}
use mafia_game_party.Ws.Route.Audience.{learns, engine_event-reach}
use mafia_game_party.Game.Event.{
  Visibility, EventEnvelope, private_event, role_revealed_to_player, mafia_event,
  mafia_target_selected, submit_mafia_kill,
}
use mafia_game_party.Announce.{is_empty}
use mafia_game_party.Session.Types.{Manager}
use mafia_game_party.Session.HostAuthority.{is_claimed}
use mafia_game_party.Session.Boot.{subscribe, room_snapshot, is_active_phase}
use mafia_game_party.Game.Start.{snapshot}
use mafia_game_party.Session.Lifecycle.{join_player, join_check, with_new_token, admit}
use mafia_game_party.Session.Token.{issue_unique_token, try_tokens, new_token, token_in_use}
use mafia_game_party.Session.Dispatch.{
  persist_and_dispatch, handle_game_end, find_game_ended, ending_of, dispatch_handlers, deliveries,
  system_outs, event_outs, persist, should_persist, is_trigger,
}
use mafia_game_party.Session.Members.Ids.{HaveIds}
use mafia_game_party.Ws.Protocol.{Request}
use mafia_game_party.Ws.Registry.{
  by_player_safe, is_public, ClientKind, member, new_registry, new_client, add, include,
  bind_player, snapshot_public, snapshot_players, entries,
}
use mafia_game_party.Ws.Registry.Indices.{IsIndexed}
use mafia_game_party.Ws.Route.{on_event, route_event, route, enqueue_all, enqueue, push_room_state}
use mafia_game_party.Ws.Route.Reach.{may_see, route_event-reach}
use mafia_game_party.Ws.Hub.{Hub, hub_new, register, call, hub_bind_player, receive}
use mafia_game_party.Ws.Handler.{Draws, handle_incoming, respond_join}
use mafia_game_party.Ws.Handler.Answers.{IsReady}
use mafia_game_party.Ws.Handler.Run.{
  HubCall, connected, received, IsConsistent, hub_run, hub_call, AllFit, Fits, hub_run-IsConsistent,
  hub_keeps_secrets, hub_new-IsConsistent,
}
use mafia_game_party.Ws.Handler.Evict.{is_registered_as, hub_bind_player-wins}
use mafia_game_party.Examples.Setup.{game_in, engine_with, example_rng}
use mafia_game_party.Examples.Lobby.{slot, silent, lobby_of, one_text, token_bytes}
use mafia_game_party.Examples.Distinct.{differ}

abbrev draws : Draws
draws = record { player_id = "a"; game_id = "g"; seat = none }

abbrev open_lobby : Manager slot
open_lobby = record (lobby_of []) { rand = token_bytes }

abbrev calls : List HubCall
calls = connected "x" ∷ connected "y" ∷ received draws "x" (Request.join "Ann") ∷ []

abbrev hub_then : Hub slot
hub_then = hub_run silent slot one_text example_rng calls (hub_new open_lobby)

ids_then : HaveIds open_lobby.sess.members
unfolding HaveIds
ids_then = tt

calls_fit : AllFit silent slot one_text example_rng calls (hub_new open_lobby)
unfolding AllFit Fits hub_call IsReady hub_new register subscribe new_registry new_client add
    include enqueue push_room_state room_snapshot is_claimed snapshot is_active_phase member id_dec
    phase_dec
calls_fit = (refl, (refl, ((differ "a" "" refl, λ h. (refl, refl)), tt)))

-- Ann's role, which is for the player "a" alone.
abbrev secret : EventEnvelope
secret = private_event (role_revealed_to_player "a" Role.mafia "night") "a"

y_is_public : (hub_then.net.registry.clients "y").kind ≡ ClientKind.public
unfolding hub_run hub_call hub_new register subscribe new_registry new_client add include enqueue
    push_room_state room_snapshot is_claimed snapshot is_active_phase member id_dec phase_dec
    handle_incoming call join_player join_check with_new_token issue_unique_token try_tokens
    new_token token_in_use admit persist_and_dispatch respond_join hub_bind_player bind_player
    lookup receive handle_game_end find_game_ended ending_of dispatch_handlers deliveries
    system_outs event_outs persist should_persist is_trigger on_event is_empty enqueue_all
    route_event route snapshot_public snapshot_players entries
y_is_public = refl

hub_keeps_secrets_example :
    (on_event
        (record { envelope = some secret; announcement = none; state = game_in Phase.intro })
        hub_then.net).registry.clients
      "y"
    ≡ hub_then.net.registry.clients "y"
unfolding may_see
hub_keeps_secrets_example =
    hub_keeps_secrets silent slot one_text example_rng calls open_lobby secret (game_in Phase.intro)
      "y" ids_then calls_fit (rw y_is_public refl)

hub_run-IsConsistent_example :
    IsConsistent (hub_run silent slot one_text example_rng calls (hub_new open_lobby))
hub_run-IsConsistent_example =
    hub_run-IsConsistent silent slot one_text example_rng calls (hub_new open_lobby)
      (hub_new-IsConsistent silent slot open_lobby ids_then) calls_fit

-- The indices after the calls.
then_IsIndexed : IsIndexed hub_then.net.registry
then_IsIndexed =
    (hub_run-IsConsistent silent slot one_text example_rng calls (hub_new open_lobby)
      (hub_new-IsConsistent silent slot open_lobby ids_then) calls_fit).indices

route_event-reach_example :
    member "x" (route_event secret (game_in Phase.night) hub_then.net.registry) ≡ (
      member "x" hub_then.net.registry.by_id
      && may_see Visibility.player "a" (game_in Phase.night) (hub_then.net.registry.clients "x"))
route_event-reach_example =
    route_event-reach secret (game_in Phase.night) hub_then.net.registry "x" then_IsIndexed

y_registered : member "y" hub_then.net.registry.by_id ≡ true
unfolding hub_run hub_call hub_new register subscribe new_registry new_client add include enqueue
    push_room_state room_snapshot is_claimed snapshot is_active_phase member id_dec phase_dec
    handle_incoming call join_player join_check with_new_token issue_unique_token try_tokens
    new_token token_in_use admit persist_and_dispatch respond_join hub_bind_player bind_player
    lookup receive handle_game_end find_game_ended ending_of dispatch_handlers deliveries
    system_outs event_outs persist should_persist is_trigger on_event is_empty enqueue_all
    route_event route snapshot_public snapshot_players entries
y_registered = refl

-- "y" resumes the player of "x".
hub_bind_player-wins_example :
    (by_player_safe "a" (hub_bind_player "y" "a" hub_then.net).registry ≡ some "y")
    × (is_registered_as "a" "x" (hub_bind_player "y" "a" hub_then.net).registry ≡ ("x" === "y"))
unfolding id_dec
hub_bind_player-wins_example =
    hub_bind_player-wins "y" "a" hub_then.net "x" then_IsIndexed y_registered
      (ap is_public y_is_public) (differ "a" "" refl)

abbrev mafia_turn : Engine
mafia_turn = engine_with (record (game_in Phase.night) { night_step = NightStep.mafia })

-- The mafia's choice, which is for the mafia alone.
abbrev chosen : EventEnvelope
chosen = mafia_event (mafia_target_selected "a" "d")

target_told : (apply example_rng (submit_mafia_kill "a" "d") mafia_turn).1 ≡ ok (chosen ∷ [])
unfolding apply handle handle_mafia_kill find_player id_dec phase_dec role_dec step_dec ensure_phase
    ensure_role ensure_alive
target_told = refl

engine_event-reach_example :
    member "x" (route_event chosen (game_in Phase.night) hub_then.net.registry) ≡ (
      member "x" hub_then.net.registry.by_id
      && learns chosen.event (game_in Phase.night) (hub_then.net.registry.clients "x"))
engine_event-reach_example =
    engine_event-reach example_rng (chosen ∷ []) 0 chosen (game_in Phase.night)
      hub_then.net.registry "x" (acted (submit_mafia_kill "a" "d") mafia_turn target_told) refl
      then_IsIndexed
