-- ===== src/Persistence/Sqlite.antt =====
-- internal/persistence/sqlite_store.go, schema.go and recovery.go: the store on a database.
pub mod Opening
pub mod Durable
pub mod Reopen
pub mod Archived
use mafia_game_party.Prelude.{
  ℕ, Bool, true, false, not, Option, none, some, List, [], ◌∷◌, String, PlayerId, ℤ, pos, leb_ℤ,
  pos_part, if◌then◌else◌, ◌===◌,
}
use mafia_game_party.Game.Event.{Visibility, EventEnvelope}
use mafia_game_party.Persistence.{Snapshot, GameResult, Loaded, load_failed, nothing, found, Store}
use mafia_game_party.Persistence.Database.{
  Json, Database, SnapshotRow, ResultRow, EventRow, Scanned, scan_failed, no_rows, row, Statement,
  Script, FileState, present, missing, stat_failed,
}

unfoldable pub visibility_to_string : Visibility → String
visibility_to_string Visibility.public = "PUBLIC"
visibility_to_string Visibility.player = "PLAYER"
visibility_to_string Visibility.role_mafia = "ROLE_MAFIA"

-- Only a private event has a recipient.
unfoldable pub recipient : Visibility → PlayerId → Option PlayerId
recipient Visibility.player i = some i
recipient Visibility.public i = none
recipient Visibility.role_mafia i = none

module _ (J : Json) (D : Database J.Blob) where
  open J use {Blob}
  open D use {Db, Tx}

  -- `sqliteStore`: `has_db` says that `db` is not nil, `stmts` that the statements are not closed.
  pub record SqliteStore : Type 0 where
    pub db : Db
    pub has_db : Bool
    pub stmts : Bool

  -- A statement is executed; a closed one is an error.
  abbrev pub execute : (Db → Db × Bool) → SqliteStore → SqliteStore × Bool
  execute f s =
      let (d, done) = f s.db in if s.stmts then (record s { db = d }, done) else (s, false)

  abbrev pub snapshot_row : Snapshot → Blob → Blob → SnapshotRow Blob
  snapshot_row snap state members = record {
    game_id = snap.game_id;
    state_json = state;
    member_json = members;
    host_id = snap.host_id;
  }

  abbrev pub save_encoded : Snapshot → Option Blob → Option Blob → SqliteStore → SqliteStore × Bool
  save_encoded snap none members s = (s, false)
  save_encoded snap (some state) none s = (s, false)
  save_encoded snap (some state) (some members) s =
      execute (D.exec_save_snapshot (snapshot_row snap state members)) s

  unfoldable pub sqlite_save_snapshot : Snapshot → SqliteStore → SqliteStore × Bool
  sqlite_save_snapshot snap s =
      save_encoded snap (J.marshal_state snap.state) (J.marshal_members snap.members) s

  abbrev pub decoded : SnapshotRow Blob → Loaded
  decoded r = elim (J.unmarshal_state r.state_json) [
    | none ↦ load_failed
    | some state ↦ elim (J.unmarshal_members r.member_json) [
      | none ↦ load_failed
      | some members ↦
          found
            (record { game_id = r.game_id; state = state; members = members; host_id = r.host_id })
    ]
  ]

  abbrev pub loaded : Scanned (SnapshotRow Blob) → Loaded
  loaded scan_failed = load_failed
  loaded no_rows = nothing
  loaded (row r) = decoded r

  unfoldable pub sqlite_load_active_snapshot : SqliteStore → Loaded
  sqlite_load_active_snapshot s = if s.stmts then loaded (D.query_snapshot s.db) else load_failed

  unfoldable pub sqlite_delete_active_snapshot : SqliteStore → SqliteStore × Bool
  sqlite_delete_active_snapshot s = execute D.exec_delete_snapshot s

  abbrev pub result_row : GameResult → Blob → Blob → Blob → ResultRow Blob
  result_row r options members reveal = record {
    game_id = r.game_id;
    started_at = r.started_at;
    ended_at = r.ended_at;
    winner = r.winner;
    end_reason = r.end_reason;
    options_json = options;
    members_json = members;
    reveal_json = reveal;
  }

  -- The deferred `Rollback` does nothing after `Commit`.
  abbrev pub committed : Db × Bool → SqliteStore → SqliteStore × Bool
  committed (d, done) s = (record s { db = d }, done)

  abbrev pub rolled_back : Tx → SqliteStore → SqliteStore × Bool
  rolled_back t s = (record s { db = D.rollback t }, false)

  abbrev pub run_tx : Option Tx → ResultRow Blob → SqliteStore → SqliteStore × Bool
  run_tx none r s = (s, false)
  run_tx (some t) r s =
      let (t1, inserted) = D.tx_save_result r t in
      let (t2, deleted) = D.tx_delete_snapshot t1 in
      if not s.stmts
      then rolled_back t s
      else if not inserted
      then rolled_back t1 s
      else if not deleted
      then rolled_back t2 s
      else committed (D.commit t2) s

  abbrev pub save_result_encoded :
      GameResult → Option Blob → Option Blob → Option Blob → SqliteStore → SqliteStore × Bool
  save_result_encoded r (some options) (some members) (some reveal) s =
      run_tx (D.begin_tx s.db) (result_row r options members reveal) s
  save_result_encoded r none members reveal s = (s, false)
  save_result_encoded r (some options) none reveal s = (s, false)
  save_result_encoded r (some options) (some members) none s = (s, false)

  unfoldable pub sqlite_save_result_and_clear_active : GameResult → SqliteStore → SqliteStore × Bool
  sqlite_save_result_and_clear_active r s =
      if not s.has_db
      then (s, false)
      else save_result_encoded r (J.marshal_options r.options) (J.marshal_members r.members)
          (J.marshal_players r.reveal) s

  abbrev decoded_result : ResultRow Blob → Option GameResult
  decoded_result r = elim (J.unmarshal_options r.options_json) [
    | none ↦ none
    | some options ↦ elim (J.unmarshal_members r.members_json) [
      | none ↦ none
      | some members ↦ elim (J.unmarshal_players r.reveal_json) [
        | none ↦ none
        | some reveal ↦ some (record {
          game_id = r.game_id;
          started_at = r.started_at;
          ended_at = r.ended_at;
          winner = r.winner;
          end_reason = r.end_reason;
          options = options;
          members = members;
          reveal = reveal;
        })
      ]
    ]
  ]

  abbrev cons_result : Option GameResult → Option (List GameResult) → Option (List GameResult)
  cons_result (some r) (some rs) = some (r ∷ rs)
  cons_result none rs = none
  cons_result (some r) none = none

  -- the loop over the rows
  unfoldable pub decoded_results : List (ResultRow Blob) → Option (List GameResult)
  decoded_results [] = some []
  decoded_results (r ∷ rows) = cons_result (decoded_result r) (decoded_results rows)

  abbrev listed : Option (List (ResultRow Blob)) → Option (List GameResult)
  listed none = none
  listed (some rows) = decoded_results rows

  unfoldable pub sqlite_list_results : ℤ → SqliteStore → Option (List GameResult)
  sqlite_list_results limit s =
      let n = if leb_ℤ limit (pos 0) then 100 else pos_part limit in
      if s.stmts then listed (D.query_results n s.db) else none

  abbrev event_row : String → EventEnvelope → Blob → EventRow Blob
  event_row game_id env payload = record {
    game_id = game_id;
    event_type = J.type_name env.event;
    visibility = visibility_to_string env.visibility;
    recipient_id = recipient env.visibility env.player_id;
    payload_json = payload;
  }

  abbrev append_encoded : String → EventEnvelope → Option Blob → SqliteStore → SqliteStore × Bool
  append_encoded game_id env none s = (s, false)
  append_encoded game_id env (some payload) s =
      execute (D.exec_append_event (event_row game_id env payload)) s

  unfoldable pub sqlite_append_event : String → EventEnvelope → SqliteStore → SqliteStore × Bool
  sqlite_append_event game_id env s = append_encoded game_id env (J.marshal_event env.event) s

  -- The statements are closed in any case; `db` becomes nil if it is closed without an error.
  unfoldable pub sqlite_close : SqliteStore → SqliteStore × Bool
  sqlite_close s =
      let (d, closed) = D.db_close s.db in
      if s.has_db
      then (record s { db = d; stmts = false; has_db = (if closed then false else true) }, closed)
      else (record s { stmts = false }, true)

  abbrev renamed : Db × Bool → SqliteStore → SqliteStore × Bool
  renamed (d, false) s = (record s { db = d }, false)
  renamed (d, true) s = (record s { db = D.rename_siblings d }, true)

  abbrev archived : FileState → SqliteStore → SqliteStore × Bool
  archived missing s = (s, true)
  archived stat_failed s = (s, false)
  archived present s = renamed (D.rename s.db) s

  -- Errors of the close are left aside.
  unfoldable pub sqlite_archive_corrupt : SqliteStore → SqliteStore × Bool
  sqlite_archive_corrupt s = let s' = (sqlite_close s).0 in archived (D.stat s'.db) s'

  abbrev pub sqlite_store : Store
  sqlite_store = record {
    Disk = SqliteStore;
    save_snapshot = sqlite_save_snapshot;
    load_active_snapshot = sqlite_load_active_snapshot;
    delete_active_snapshot = sqlite_delete_active_snapshot;
    save_result_and_clear_active = sqlite_save_result_and_clear_active;
    list_results = sqlite_list_results;
    append_event = sqlite_append_event;
    archive_corrupt = sqlite_archive_corrupt;
    close = sqlite_close;
  }
