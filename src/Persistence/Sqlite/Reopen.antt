-- ===== src/Persistence/Sqlite/Reopen.antt =====
-- The store is closed and opened again on the same file.
use mafia_game_party.Prelude.{
  Bool, true, false, List, [], ◌∷◌, String, ◌===◌, ◌≡◌, refl, sym, ◌∙◌, ap, arith, Bool-cases, inl,
  inr,
}
use mafia_game_party.Persistence.{Snapshot, found}
use mafia_game_party.Persistence.Database.{
  Json, Database, SnapshotRow, Scanned, row, scan_failed, no_rows, Statement, Script, IsKeptOpen,
  KeepsRow,
}
use mafia_game_party.Persistence.Sqlite.{
  SqliteStore, loaded, sqlite_load_active_snapshot, sqlite_close,
}
use mafia_game_party.Persistence.Sqlite.Opening.{
  or_fail, or_close, opened, apply_scripts, prepare_stmts, open_sqlite, pragmas, plan,
}

module _ (J : Json) (D : Database J.Blob) (K : IsKeptOpen D) (r : SnapshotRow J.Blob) where
  -- The row is in the database, and a store that is there has its statements.
  record IsKept (x : SqliteStore J D × Bool) : Type 0 where
    kept : D.query_snapshot x.0.db ≡ row r
    ready : x.1 ≡ true → x.0.stmts ≡ true

  or_fail-IsKept :
      (x : D.Db × Bool) (k : D.Db → SqliteStore J D × Bool)
      → D.query_snapshot x.0 ≡ row r
      → ((d : D.Db) → D.query_snapshot d ≡ row r → IsKept (k d))
      → IsKept (or_fail J D x k)
  unfolding or_fail
  or_fail-IsKept (d, true) k q h = h d q
  or_fail-IsKept (d, false) k q h = record { kept = q; ready = λ e. ground (arith) }

  or_close-IsKept :
      (x : D.Db × Bool) (k : D.Db → SqliteStore J D × Bool)
      → D.query_snapshot x.0 ≡ row r
      → ((d : D.Db) → D.query_snapshot d ≡ row r → IsKept (k d))
      → IsKept (or_close J D x k)
  unfolding or_close
  or_close-IsKept (d, true) k q h = h d q
  or_close-IsKept (d, false) k q h = record {
    kept = K.keeps-db_close r d q;
    ready = λ e. ground (arith);
  }

  apply_scripts-kept : (xs : List Script) → KeepsRow D (apply_scripts J D xs)
  unfolding apply_scripts
  apply_scripts-kept [] r' d q = q
  apply_scripts-kept (x ∷ xs) r' d q =
      ground (arith, K.keeps-exec_script x r' d, apply_scripts-kept xs r' (D.exec_script x d).0)

  prepare_stmts-kept : (xs : List Statement) → KeepsRow D (prepare_stmts J D xs)
  unfolding prepare_stmts
  prepare_stmts-kept [] r' d q = q
  prepare_stmts-kept (x ∷ xs) r' d q =
      ground (arith, K.keeps-prepare x r' d, prepare_stmts-kept xs r' (D.prepare x d).0)

  steps-IsKept :
      (d : D.Db)
      → D.query_snapshot d ≡ row r
      → IsKept (
          or_fail J D (D.mkdir_all d) (λ d. or_fail J D (D.sql_open d) (λ d.
            or_close J D (D.ping d) (λ d. or_close J D (apply_scripts J D pragmas d) (λ d.
              or_close J D (D.exec_script Script.schema_ddl d) (λ d.
                or_close J D
                  (prepare_stmts J D plan d)
                  (λ d. or_close J D (D.chmod d) (opened J D))))))))
  steps-IsKept d q = or_fail-IsKept _ _ (K.keeps-mkdir_all r d q) (λ d q.
      or_fail-IsKept _ _ (K.keeps-sql_open r d q) (λ d q.
        or_close-IsKept _ _ (K.keeps-ping r d q) (λ d q.
          or_close-IsKept _ _ (apply_scripts-kept pragmas r d q) (λ d q.
            or_close-IsKept _ _ (K.keeps-exec_script Script.schema_ddl r d q) (λ d q.
              or_close-IsKept _ _ (prepare_stmts-kept plan r d q) (λ d q.
                or_close-IsKept _ _ (K.keeps-chmod r d q)
                  (λ d q. record { kept = q; ready = λ e. refl })))))))

  open_sqlite-IsKept :
      (path : String) (d : D.Db) → D.query_snapshot d ≡ row r → IsKept (open_sqlite J D path d)
  unfolding open_sqlite
  open_sqlite-IsKept path d q = elim (Bool-cases (path === "")) [
    | inl e ↦ rw (e) (record { kept = q; ready = λ e. ground (arith) })
    | inr e ↦ rw (e) (steps-IsKept d q)
  ]

module _ (J : Json) (D : Database J.Blob) (K : IsKeptOpen D) where
  load-reopened :
      (r : SnapshotRow J.Blob) (x : SqliteStore J D × Bool) (snap : Snapshot)
      → IsKept J D K r x
      → x.1 ≡ true
      → loaded J D (row r) ≡ found snap
      → sqlite_load_active_snapshot J D x.0 ≡ found snap
  unfolding sqlite_load_active_snapshot
  load-reopened r x snap k e l = rw (k.ready e, k.kept) l

  row_of :
      (q : Scanned (SnapshotRow J.Blob)) (snap : Snapshot)
      → loaded J D q ≡ found snap
      → (r : SnapshotRow J.Blob) × (q ≡ row r)
  row_of (row r) snap l = (r, refl)
  row_of scan_failed snap l = ground (arith)
  row_of no_rows snap l = ground (arith)

  load-row :
      (s : SqliteStore J D) (snap : Snapshot)
      → sqlite_load_active_snapshot J D s ≡ found snap
      → loaded J D (D.query_snapshot s.db) ≡ found snap
  unfolding sqlite_load_active_snapshot
  load-row s snap l = ground (arith)

  closed-kept :
      (r : SnapshotRow J.Blob) (s : SqliteStore J D)
      → D.query_snapshot s.db ≡ row r
      → D.query_snapshot (sqlite_close J D s).0.db ≡ row r
  unfolding sqlite_close
  closed-kept r s q = ground (arith, K.keeps-db_close r s.db q)

  -- A snapshot that the store loads is loaded again after the store is closed and opened at the same
  -- file, if the opening succeeds and the operations around it keep the row.
  pub load-reopen :
      (path : String) (s : SqliteStore J D) (snap : Snapshot)
      → sqlite_load_active_snapshot J D s ≡ found snap
      → (open_sqlite J D path (sqlite_close J D s).0.db).1 ≡ true
      → sqlite_load_active_snapshot J D (open_sqlite J D path (sqlite_close J D s).0.db).0
        ≡ found snap
  load-reopen path s snap l o =
      let (r, q) = row_of (D.query_snapshot s.db) snap (load-row s snap l) in
      load-reopened r (open_sqlite J D path (sqlite_close J D s).0.db) snap
        (open_sqlite-IsKept J D K r path (sqlite_close J D s).0.db (closed-kept r s q)) o
        (sym (ap (loaded J D) q) ∙ load-row s snap l)
