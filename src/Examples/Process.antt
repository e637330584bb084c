-- ===== src/Examples/Process.antt =====
-- Witnesses: a process and its successor, the results, what is told, and the time of a game.
use mafia_game_party.Prelude.{
  ℤ, pos, true, false, Option, none, some, [], ◌∷◌, String, id_dec, ◌≡◌, refl, ◌≢◌, lookup, List,
}
use mafia_game_party.Game.Types.{Phase, Team, EndReason}
use mafia_game_party.Game.Event.{Visibility, EventEnvelope, public_event, game_ended}
use mafia_game_party.Game.Engine.{Engine, ok}
use mafia_game_party.Game.End.{fire_pending_end, end_game}
use mafia_game_party.Game.Tick.{tick}
use mafia_game_party.Game.Run.Emits.{ticked}
use mafia_game_party.Announce.{is_empty, CatalogContext}
use mafia_game_party.Announce.Bundled
use mafia_game_party.Announce.Bundled.{render_event, default_catalog}
use mafia_game_party.Announce.Bundled.Public.{announced_is_public}
use mafia_game_party.Persistence.{nothing, PersistedMember, GameResult, Store}
use mafia_game_party.Persistence.Sqlite.{SqliteStore, sqlite_store, sqlite_save_snapshot}
use mafia_game_party.Persistence.Sqlite.Opening.{
  open_sqlite, or_fail, or_close, apply_scripts, prepare_stmts,
}
use mafia_game_party.Session.Types.{Manager}
use mafia_game_party.Session.Lifecycle.{no_session}
use mafia_game_party.Session.Boot.{subscribe, new_manager, session_new, final_snapshot}
use mafia_game_party.Session.Boot.Recover.{IsRecovered}
use mafia_game_party.Session.Members.Ids.{HaveIds}
use mafia_game_party.Ws.Handler.Run.{HubCall, connected, hub_run, hub_call, AllFit, Fits}
use mafia_game_party.Ws.Registry.{member}
use mafia_game_party.Ws.Hub.{hub_new, register, Hub}
use mafia_game_party.Ws.Registry.{new_registry}
use mafia_game_party.Command.{shutdown, no_opts}
use mafia_game_party.Command.Restart.{served, served_game_recovers}
use mafia_game_party.Http.{results_handler}
use mafia_game_party.Http.Results.{
  AlikeMembers, AlikeResults, AlikeLists, ListsAlike, results_handler-secret,
}
use mafia_game_party.Examples.Setup.{
  cast, game_in, engine_with, fresh_engine, eight_bytes, example_rng, example_options,
}
use mafia_game_party.Examples.Distinct.{differ}
use mafia_game_party.Examples.Lobby.{one_text, silent, two_members}
use mafia_game_party.Examples.Stored.{
  kept_json, kept-DecodesBack, memory, memory-IsSql, memory-IsKeptOpen,
}

not_unset : {p : Phase} → p ≡ Phase.day → p ≢ Phase.unset
not_unset h = λ e. cc

not_end : {p : Phase} → p ≡ Phase.day → p ≢ Phase.end
not_end h = λ e. cc

abbrev empty_store : SqliteStore kept_json (memory true)
empty_store = record { db = record { active = none; finished = [] }; has_db = true; stmts = true }

-- A process in which a game is on.
abbrev playing : Manager (sqlite_store kept_json (memory true))
playing =
    record (new_manager silent (sqlite_store kept_json (memory true))
      (engine_with (game_in Phase.day)) empty_store 100 eight_bytes no_opts) {
        sess = record no_session { game_id = "g"; members = two_members; started = true };
      }

playing_ids : HaveIds playing.sess.members
unfolding HaveIds lookup id_dec
playing_ids = (differ "a" "" refl, refl, refl, (differ "b" "" refl, refl, refl, tt))

-- A client connects.
abbrev one_client : List HubCall
one_client = connected "x" ∷ []

abbrev after_client : Hub (sqlite_store kept_json (memory true))
after_client = served kept_json (memory true) silent one_text example_rng one_client playing

client_fits :
    AllFit silent
      (sqlite_store kept_json (memory true))
      one_text
      example_rng
      one_client
      (hub_new playing)
unfolding AllFit Fits hub_new subscribe new_registry member
client_fits = (refl, tt)

still_open : (after_client.manager.closed ≡ false) × (after_client.manager.sess.started ≡ true)
unfolding hub_run hub_call hub_new subscribe register
still_open = (refl, refl)

still_day : after_client.manager.engine.state.phase ≡ Phase.day
unfolding hub_run hub_call hub_new subscribe register
still_day = refl

last_saved :
    (sqlite_save_snapshot kept_json
      (memory true)
      (final_snapshot (sqlite_store kept_json (memory true)) after_client.manager)
      after_client.manager.disk).1
    ≡ true
unfolding sqlite_save_snapshot hub_run hub_call hub_new subscribe register
last_saved = refl

opened_again :
    (open_sqlite kept_json
      (memory true)
      "mafia.db"
      (shutdown kept_json (memory true) silent after_client).manager.disk.db).1
    ≡ true
unfolding open_sqlite or_fail or_close apply_scripts prepare_stmts id_dec
opened_again = refl

served_game_recovers_example :
    IsRecovered silent
      (sqlite_store kept_json (memory true))
      after_client.manager.engine.state
      after_client.manager.sess
      (session_new silent
        (sqlite_store kept_json (memory true))
        fresh_engine
        (open_sqlite kept_json
          (memory true)
          "mafia.db"
          (shutdown kept_json (memory true) silent after_client).manager.disk.db).0
        900
        eight_bytes
        no_opts)
served_game_recovers_example =
    served_game_recovers kept_json (memory true) silent one_text example_rng one_client playing
      kept-DecodesBack (memory-IsSql true) memory-IsKeptOpen playing_ids client_fits "mafia.db"
      fresh_engine 900 eight_bytes no_opts still_open.0 still_open.1 last_saved opened_again
      (not_unset still_day) (not_end still_day)

abbrev member_with : String → PersistedMember
member_with token = record {
  id = "a";
  name = "Ann";
  token = token;
  connected = true;
  joined_at = 20;
}

abbrev result_with : String → GameResult
result_with token = record {
  game_id = "g";
  started_at = 10;
  ended_at = 20;
  winner = none;
  end_reason = EndReason.host_force_end;
  options = example_options;
  members = member_with token ∷ [];
  reveal = cast;
}

-- A store of one result, in which the disk is the token of its member.
abbrev one_result : Store
one_result = record {
  Disk = String;
  save_snapshot = λ snap d. (d, true);
  load_active_snapshot = λ d. nothing;
  delete_active_snapshot = λ d. (d, true);
  save_result_and_clear_active = λ r d. (d, true);
  list_results = λ n d. some (result_with d ∷ []);
  append_event = λ game_id e d. (d, true);
  archive_corrupt = λ d. (d, true);
  close = λ d. (d, true);
}

lists_alike : ListsAlike one_result "t1" "t2"
unfolding AlikeLists AlikeResults AlikeMembers
lists_alike = λ limit l h. (refl, (refl, tt), tt)

-- A reader of the one number that is asked for.
abbrev only_twenty : String → Option ℤ
only_twenty v = some (pos 20)

results_handler-secret_example :
    results_handler one_result only_twenty "20" "t1"
    ≡ results_handler one_result only_twenty "20" "t2"
results_handler-secret_example =
    results_handler-secret one_result "t1" "t2" only_twenty "20" lists_alike

-- The mafia have won, and the end is pending.
abbrev ending : Engine
ending = engine_with (record (game_in Phase.day) {
  pending_game_end =
      some (record { reason = EndReason.mafia_win; winner = some Team.mafia; deadline = 150 });
})

abbrev last_event : EventEnvelope
last_event = public_event (game_ended (some Team.mafia) EndReason.mafia_win cast)

last_events : (tick example_rng 200 ending).1 ≡ ok (last_event ∷ [])
unfolding tick fire_pending_end end_game
last_events = refl

abbrev context : CatalogContext
context = record { get_name = λ i. i; intro_seconds_per_player = pos 20 }

abbrev some_text : {A : Type 0} → A → String
some_text x = "one"

not_silent : is_empty ((default_catalog some_text some_text).render last_event context) ≡ false
unfolding is_empty default_catalog render_event id_dec Bundled.ann
not_silent = refl

announced_is_public_example : last_event.visibility ≡ Visibility.public
announced_is_public_example =
    announced_is_public some_text some_text example_rng (last_event ∷ []) 0 last_event context
      (ticked 200 ending last_events) refl not_silent
