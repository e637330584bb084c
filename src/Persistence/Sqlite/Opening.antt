-- ===== src/Persistence/Sqlite/Opening.antt =====
-- internal/persistence/sqlite_store.go and schema.go: the opening of the store.
use mafia_game_party.Prelude.{Bool, true, false, List, [], ◌∷◌, String, ◌===◌, if◌then◌else◌}
use mafia_game_party.Persistence.Database.{Json, Database, Statement, Script}
use mafia_game_party.Persistence.Sqlite.{SqliteStore}

abbrev pub plan : List Statement
plan =
    Statement.save_snapshot ∷ Statement.load_snapshot ∷ Statement.delete_snapshot
    ∷ Statement.save_result ∷ Statement.list_results ∷ Statement.append_event ∷ []

abbrev pub pragmas : List Script
pragmas = Script.journal_mode_wal ∷ Script.synchronous_normal ∷ Script.foreign_keys_on ∷ []

module _ (J : Json) (D : Database J.Blob) where
  -- There is no store: no connection and no statement.
  abbrev pub unopened : D.Db → SqliteStore J D
  unopened d = record { db = d; has_db = false; stmts = false }

  -- A step of the opening: on an error it ends at once, or after the connection is closed.
  unfoldable pub or_fail : D.Db × Bool → (D.Db → SqliteStore J D × Bool) → SqliteStore J D × Bool
  or_fail (d, true) k = k d
  or_fail (d, false) k = (unopened d, false)

  unfoldable pub or_close : D.Db × Bool → (D.Db → SqliteStore J D × Bool) → SqliteStore J D × Bool
  or_close (d, true) k = k d
  or_close (d, false) k = (unopened (D.db_close d).0, false)

  -- `applyPragmas`
  unfoldable pub apply_scripts : List Script → D.Db → D.Db × Bool
  apply_scripts [] d = (d, true)
  apply_scripts (x ∷ xs) d =
      let (d', done) = D.exec_script x d in if done then apply_scripts xs d' else (d', false)

  abbrev pub apply_schema : D.Db → D.Db × Bool
  apply_schema d = D.exec_script Script.schema_ddl d

  unfoldable pub prepare_stmts : List Statement → D.Db → D.Db × Bool
  prepare_stmts [] d = (d, true)
  prepare_stmts (x ∷ xs) d =
      let (d', done) = D.prepare x d in if done then prepare_stmts xs d' else (d', false)

  abbrev pub opened : D.Db → SqliteStore J D × Bool
  opened d = (record { db = d; has_db = true; stmts = true }, true)

  -- `d` is the file as it is before.
  unfoldable pub open_sqlite : String → D.Db → SqliteStore J D × Bool
  open_sqlite path d =
      if path === ""
      then (unopened d, false)
      else or_fail (D.mkdir_all d) (λ d. or_fail (D.sql_open d) (λ d. or_close (D.ping d) (λ d.
        or_close (apply_scripts pragmas d) (λ d.
          or_close (apply_schema d)
            (λ d. or_close (prepare_stmts plan d) (λ d. or_close (D.chmod d) opened))))))
