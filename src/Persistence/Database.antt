-- ===== src/Persistence/Database.antt =====
-- What internal/persistence uses of code that is not its own: database/sql with the SQLite driver,
-- the file system, and encoding/json. They are parameters, with the behaviour that their documentation
-- states as laws.
use mafia_game_party.Prelude.{Bool, true, Option, some, List, String, PlayerId, ℕ, ◌≡◌}
use mafia_game_party.Prelude.Time.{Time}
use mafia_game_party.Game.Types.{Team, EndReason, Options}
use mafia_game_party.Game.State.{Player, State}
use mafia_game_party.Game.Event.{Event}
use mafia_game_party.Persistence.{PersistedMember}

-- `json.Marshal` and `json.Unmarshal` at the types that are stored; `none` is an error. `type_name`
-- is the verb `%T`.
pub record Json : Type 1 where
  pub Blob : Type 0
  pub marshal_state : State → Option Blob
  pub unmarshal_state : Blob → Option State
  pub marshal_members : List PersistedMember → Option Blob
  pub unmarshal_members : Blob → Option (List PersistedMember)
  pub marshal_options : Options → Option Blob
  pub unmarshal_options : Blob → Option Options
  pub marshal_players : List Player → Option Blob
  pub unmarshal_players : Blob → Option (List Player)
  pub marshal_event : Event → Option Blob
  pub type_name : Event → String

-- What is decoded from an encoding is what was encoded.
pub record DecodesBack (J : Json) : Type 0 where
  pub state-decodes :
      (s : State) (b : J.Blob) → J.marshal_state s ≡ some b → J.unmarshal_state b ≡ some s
  pub members-decode :
      (ms : List PersistedMember) (b : J.Blob)
      → J.marshal_members ms ≡ some b
      → J.unmarshal_members b ≡ some ms
  pub options-decode :
      (o : Options) (b : J.Blob) → J.marshal_options o ≡ some b → J.unmarshal_options b ≡ some o
  pub players-decode :
      (ps : List Player) (b : J.Blob)
      → J.marshal_players ps ≡ some b
      → J.unmarshal_players b ≡ some ps

-- The columns of `active_snapshot`, `game_results` and `events` that statements bind.
pub record SnapshotRow (Blob : Type 0) : Type 0 where
  pub game_id : String
  pub state_json : Blob
  pub member_json : Blob
  pub host_id : PlayerId

pub record ResultRow (Blob : Type 0) : Type 0 where
  pub game_id : String
  pub started_at : Time
  pub ended_at : Time
  pub winner : Option Team
  pub end_reason : EndReason
  pub options_json : Blob
  pub members_json : Blob
  pub reveal_json : Blob

pub record EventRow (Blob : Type 0) : Type 0 where
  pub game_id : String
  pub event_type : String
  pub visibility : String
  pub recipient_id : Option PlayerId
  pub payload_json : Blob

-- `row.Scan`: another error, `sql.ErrNoRows`, or the row.
pub data Scanned {ℓ} (A : Type ℓ) : Type ℓ where
  scan_failed no_rows : Scanned A
  row : A → Scanned A

-- The six prepared statements, and the scripts that are executed on opening.
pub data Statement : Type 0 where
  save_snapshot load_snapshot delete_snapshot save_result list_results append_event : Statement

pub data Script : Type 0 where
  journal_mode_wal synchronous_normal foreign_keys_on schema_ddl : Script

-- `os.Stat`: the file is there, it does not exist, another error.
pub data FileState : Type 0 where
  present missing stat_failed : FileState

-- A database with its file. An operation gives the database that it leaves and whether it succeeded.
-- `Tx` is an open transaction with its database.
pub record Database (Blob : Type 0) : Type 1 where
  pub Db : Type 0
  pub Tx : Type 0
  pub mkdir_all : Db → Db × Bool
  pub sql_open : Db → Db × Bool
  pub ping : Db → Db × Bool
  pub exec_script : Script → Db → Db × Bool
  pub prepare : Statement → Db → Db × Bool
  pub chmod : Db → Db × Bool
  pub db_close : Db → Db × Bool
  pub exec_save_snapshot : SnapshotRow Blob → Db → Db × Bool
  pub query_snapshot : Db → Scanned (SnapshotRow Blob)
  pub exec_delete_snapshot : Db → Db × Bool
  pub query_results : ℕ → Db → Option (List (ResultRow Blob))
  pub exec_append_event : EventRow Blob → Db → Db × Bool
  pub begin_tx : Db → Option Tx
  pub tx_save_result : ResultRow Blob → Tx → Tx × Bool
  pub tx_delete_snapshot : Tx → Tx × Bool
  pub commit : Tx → Db × Bool
  pub rollback : Tx → Db
  pub stat : Db → FileState
  pub rename : Db → Db × Bool
  pub rename_siblings : Db → Db

-- The statements as SQL defines them, and transactions as SQLite documents them. `base` is the
-- database at the beginning of a transaction.
pub record IsSql {Blob : Type 0} (D : Database Blob) : Type 0 where
  pub base : D.Tx → D.Db
  pub base-begin : (d : D.Db) (t : D.Tx) → D.begin_tx d ≡ some t → base t ≡ d
  pub base-save : (r : ResultRow Blob) (t : D.Tx) → base (D.tx_save_result r t).0 ≡ base t
  pub base-delete : (t : D.Tx) → base (D.tx_delete_snapshot t).0 ≡ base t
  -- a replaced row is the row that is selected
  pub query-save :
      (r : SnapshotRow Blob) (d : D.Db)
      → (D.exec_save_snapshot r d).1 ≡ true
      → D.query_snapshot (D.exec_save_snapshot r d).0 ≡ row r
  -- a deletion that has been committed leaves no row
  pub query-commit :
      (t : D.Tx)
      → (D.tx_delete_snapshot t).1 ≡ true
      → (D.commit (D.tx_delete_snapshot t).0).1 ≡ true
      → D.query_snapshot (D.commit (D.tx_delete_snapshot t).0).0 ≡ no_rows
  -- a transaction that is rolled back leaves the rows as they were
  pub query-rollback : (t : D.Tx) → D.query_snapshot (D.rollback t) ≡ D.query_snapshot (base t)
  pub results-rollback :
      (n : ℕ) (t : D.Tx) → D.query_results n (D.rollback t) ≡ D.query_results n (base t)

-- An operation keeps the snapshot's row.
abbrev pub KeepsRow : {Blob : Type 0} → (D : Database Blob) → (D.Db → D.Db × Bool) → Type 0
KeepsRow {Blob} D f =
    (r : SnapshotRow Blob)
    → (d : D.Db) → D.query_snapshot d ≡ row r
    → D.query_snapshot (f d).0 ≡ row r

-- Closing a database file and opening it keep its rows, and so do the pragmas and a schema of
-- `CREATE ... IF NOT EXISTS` statements.
pub record IsKeptOpen {Blob : Type 0} (D : Database Blob) : Type 0 where
  pub keeps-mkdir_all : KeepsRow D D.mkdir_all
  pub keeps-sql_open : KeepsRow D D.sql_open
  pub keeps-ping : KeepsRow D D.ping
  pub keeps-exec_script : (x : Script) → KeepsRow D (D.exec_script x)
  pub keeps-prepare : (x : Statement) → KeepsRow D (D.prepare x)
  pub keeps-chmod : KeepsRow D D.chmod
  pub keeps-db_close : KeepsRow D D.db_close
