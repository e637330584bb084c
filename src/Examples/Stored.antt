-- ===== src/Examples/Stored.antt =====
-- Witnesses: the theorems about the store applied to a database in memory.
use mafia_game_party.Prelude.{
  ℕ, zero, suc, pos, Bool, true, false, Option, none, some, List, [], ◌∷◌, ◌≡◌, refl, if◌then◌else◌,
  arith,
}
use mafia_game_party.Game.Types.{Phase, Options, EndReason}
use mafia_game_party.Game.State.{Player, State}
use mafia_game_party.Game.Event.{Event}
use mafia_game_party.Persistence.{PersistedMember, GameResult, IsDurable, load_failed}
use mafia_game_party.Persistence.Database.{
  Json, DecodesBack, Database, IsSql, IsKeptOpen, SnapshotRow, ResultRow, no_rows, row, present,
}
use mafia_game_party.Persistence.Sqlite.{
  SqliteStore, sqlite_store, sqlite_save_result_and_clear_active, sqlite_load_active_snapshot,
  sqlite_list_results,
}
use mafia_game_party.Persistence.Sqlite.Durable.{save_result-atomic, sqlite-IsDurable}
use mafia_game_party.Session.Types.{Manager}
use mafia_game_party.Session.Boot.{new_manager, boot_restore}
use mafia_game_party.Persistence.Sqlite.Archived.{not_loaded, IsUnusable, boot_restore-IsUnusable}
use mafia_game_party.Command.{no_opts}
use mafia_game_party.Examples.Setup.{example_options, cast, fresh_engine, game_in, eight_bytes}
use mafia_game_party.Examples.Lobby.{silent}

-- An encoding that keeps the value.
pub data Blob : Type 0 where
  of_state : State → Blob
  of_members : List PersistedMember → Blob
  of_options : Options → Blob
  of_players : List Player → Blob
  of_event : Event → Blob

abbrev to_state : Blob → Option State
to_state (of_state s) = some s
to_state _ = none

abbrev to_members : Blob → Option (List PersistedMember)
to_members (of_members ms) = some ms
to_members _ = none

abbrev to_options : Blob → Option Options
to_options (of_options o) = some o
to_options _ = none

abbrev to_players : Blob → Option (List Player)
to_players (of_players ps) = some ps
to_players _ = none

abbrev pub kept_json : Json
kept_json = record {
  Blob = Blob;
  marshal_state = λ s. some (of_state s);
  unmarshal_state = to_state;
  marshal_members = λ ms. some (of_members ms);
  unmarshal_members = to_members;
  marshal_options = λ o. some (of_options o);
  unmarshal_options = to_options;
  marshal_players = λ ps. some (of_players ps);
  unmarshal_players = to_players;
  marshal_event = λ e. some (of_event e);
  type_name = λ e. "event";
}

pub kept-DecodesBack : DecodesBack kept_json
kept-DecodesBack = record {
  state-decodes = λ s b h. ground arith;
  members-decode = λ s b h. ground arith;
  options-decode = λ s b h. ground arith;
  players-decode = λ s b h. ground arith;
}

pub record Memory : Type 0 where
  pub active : Option (SnapshotRow Blob)
  pub finished : List (ResultRow Blob)

abbrev take : {A : Type 0} → ℕ → List A → List A
take n [] = []
take zero (x ∷ xs) = []
take (suc n) (x ∷ xs) = x ∷ take n xs

abbrev done : Memory → Memory × Bool
done d = (d, true)

-- The database in memory; a transaction keeps what it started from. If `works` is false, no deletion
-- in a transaction succeeds.
abbrev pub memory : Bool → Database Blob
memory works = record {
  Db = Memory;
  Tx = Memory × Memory;
  mkdir_all = done;
  sql_open = done;
  ping = done;
  exec_script = λ x. done;
  prepare = λ x. done;
  chmod = done;
  db_close = done;
  exec_save_snapshot = λ r d. done (record d { active = some r });
  query_snapshot = λ d. elim d.active [ none ↦ no_rows | some r ↦ row r ];
  exec_delete_snapshot = λ d. done (record d { active = none });
  query_results = λ n d. some (take n d.finished);
  exec_append_event = λ r. done;
  begin_tx = λ d. some (d, d);
  tx_save_result = λ r t. ((t.0, record t.1 { finished = r ∷ t.1.finished }), true);
  tx_delete_snapshot =
      λ t. if works then ((t.0, record t.1 { active = none }), true) else (t, false);
  commit = λ t. (t.1, true);
  rollback = λ t. t.0;
  stat = λ d. present;
  rename = λ d. done (record { active = none; finished = [] });
  rename_siblings = λ d. d;
}

pub memory-IsSql : (works : Bool) → IsSql (memory works)
memory-IsSql works = record {
  base = λ t. t.0;
  base-begin = λ d t h. ground arith;
  base-save = λ r t. refl;
  base-delete = λ t. ground arith;
  query-save = λ r d h. refl;
  query-commit = λ t h k. ground arith;
  query-rollback = λ t. refl;
  results-rollback = λ n t. refl;
}

pub memory-IsKeptOpen : IsKeptOpen (memory true)
memory-IsKeptOpen = record {
  keeps-mkdir_all = λ r d h. h;
  keeps-sql_open = λ r d h. h;
  keeps-ping = λ r d h. h;
  keeps-exec_script = λ x r d h. h;
  keeps-prepare = λ x r d h. h;
  keeps-chmod = λ r d h. h;
  keeps-db_close = λ r d h. h;
}

sqlite-IsDurable_example : IsDurable (sqlite_store kept_json (memory true))
sqlite-IsDurable_example =
    sqlite-IsDurable kept_json kept-DecodesBack (memory true) (memory-IsSql true)

abbrev stored_row : SnapshotRow Blob
stored_row = record {
  game_id = "g";
  state_json = of_state (game_in Phase.day);
  member_json = of_members [];
  host_id = "a";
}

abbrev store_on : (works : Bool) → Option (SnapshotRow Blob) → SqliteStore kept_json (memory works)
store_on works r = record { db = record { active = r; finished = [] }; has_db = true; stmts = true }

abbrev example_result : GameResult
example_result = record {
  game_id = "g";
  started_at = 10;
  ended_at = 20;
  winner = none;
  end_reason = EndReason.host_force_end;
  options = example_options;
  members = [];
  reveal = cast;
}

no_deletion :
    (sqlite_save_result_and_clear_active kept_json
      (memory false)
      example_result
      (store_on false (some stored_row))).1
    ≡ false
unfolding sqlite_save_result_and_clear_active
no_deletion = refl

save_result-atomic_example :
    let s = store_on false (some stored_row) in
    let s' = (sqlite_save_result_and_clear_active kept_json (memory false) example_result s).0 in
    (sqlite_load_active_snapshot kept_json (memory false) s'
      ≡ sqlite_load_active_snapshot kept_json (memory false) s)
    × (sqlite_list_results kept_json (memory false) (pos 50) s'
        ≡ sqlite_list_results kept_json (memory false) (pos 50) s)
save_result-atomic_example =
    save_result-atomic kept_json (memory false) (memory-IsSql false) example_result (pos 50)
      (store_on false (some stored_row)) (λ t h. refl) no_deletion

-- The members' text is where the state's should be.
abbrev broken : Manager (sqlite_store kept_json (memory true))
broken =
    new_manager silent (sqlite_store kept_json (memory true)) fresh_engine
      (store_on true (some (record stored_row { state_json = of_members [] }))) 100 eight_bytes
      no_opts

broken_load : sqlite_load_active_snapshot kept_json (memory true) broken.disk ≡ load_failed
unfolding sqlite_load_active_snapshot
broken_load = refl

boot_restore-IsUnusable_example :
    IsUnusable kept_json
      (memory true)
      (boot_restore silent (sqlite_store kept_json (memory true)) broken).0.disk
boot_restore-IsUnusable_example =
    boot_restore-IsUnusable kept_json (memory true) silent broken (not_loaded broken_load)
