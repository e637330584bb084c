-- ===== src/Persistence/Sqlite/Durable.antt =====
-- The store on a database keeps what the store's interface promises.
use mafia_game_party.Prelude.{
  ℕ, ℤ, true, false, Option, none, some, ◌≡◌, refl, inl, inr, arith, Option-cases, pos, leb_ℤ,
  pos_part, if◌then◌else◌,
}
use mafia_game_party.Persistence.{Snapshot, GameResult, nothing, found, IsDurable}
use mafia_game_party.Persistence.Database.{Json, DecodesBack, Database, IsSql, ResultRow}
use mafia_game_party.Persistence.Sqlite.{
  SqliteStore, execute, snapshot_row, sqlite_save_snapshot, sqlite_load_active_snapshot,
  sqlite_list_results, result_row, run_tx, save_result_encoded, sqlite_save_result_and_clear_active,
  sqlite_store,
}

module _ (J : Json) (B : DecodesBack J) (D : Database J.Blob) (L : IsSql D) where
  load-execute_save :
      (snap : Snapshot) (state members : J.Blob) (s : SqliteStore J D)
      → J.marshal_state snap.state ≡ some state
      → J.marshal_members snap.members ≡ some members
      → (execute J D (D.exec_save_snapshot (snapshot_row J D snap state members)) s).1 ≡ true
      → sqlite_load_active_snapshot J D
          (execute J D (D.exec_save_snapshot (snapshot_row J D snap state members)) s).0
        ≡ found snap
  unfolding sqlite_load_active_snapshot
  load-execute_save snap state members s p q h =
      let r = snapshot_row J D snap state members in
      ground (
        arith,
        L.query-save r s.db,
        B.state-decodes snap.state state p,
        B.members-decode snap.members members q,
      )

  pub load-save :
      (snap : Snapshot) (s : SqliteStore J D)
      → (sqlite_save_snapshot J D snap s).1 ≡ true
      → sqlite_load_active_snapshot J D (sqlite_save_snapshot J D snap s).0 ≡ found snap
  unfolding sqlite_save_snapshot
  load-save snap s h = elim (Option-cases (J.marshal_state snap.state)) [
    | inl n ↦ ground (arith)
    | inr (state, p) ↦ elim (Option-cases (J.marshal_members snap.members)) [
      | inl m ↦ ground (arith)
      | inr (members, q) ↦ ground (arith, load-execute_save snap state members s p q)
    ]
  ]

module _ (J : Json) (D : Database J.Blob) (L : IsSql D) where
  load-run_tx :
      (t : Option D.Tx) (r : ResultRow J.Blob) (s : SqliteStore J D)
      → (run_tx J D t r s).1 ≡ true
      → sqlite_load_active_snapshot J D (run_tx J D t r s).0 ≡ nothing
  unfolding sqlite_load_active_snapshot
  load-run_tx none r s h = ground (arith)
  load-run_tx (some t) r s h = ground (arith, L.query-commit (D.tx_save_result r t).0)

  load-save_result_encoded :
      (r : GameResult) (o m p : Option J.Blob) (s : SqliteStore J D)
      → (save_result_encoded J D r o m p s).1 ≡ true
      → sqlite_load_active_snapshot J D (save_result_encoded J D r o m p s).0 ≡ nothing
  load-save_result_encoded r none m p s h = ground (arith)
  load-save_result_encoded r (some o) none p s h = ground (arith)
  load-save_result_encoded r (some o) (some m) none s h = ground (arith)
  load-save_result_encoded r (some o) (some m) (some p) s h =
      load-run_tx (D.begin_tx s.db) (result_row J D r o m p) s h

  load-clear :
      (r : GameResult) (s : SqliteStore J D)
      → (sqlite_save_result_and_clear_active J D r s).1 ≡ true
      → sqlite_load_active_snapshot J D (sqlite_save_result_and_clear_active J D r s).0 ≡ nothing
  unfolding sqlite_save_result_and_clear_active
  load-clear r s h = ground (
    arith,
    load-save_result_encoded r (J.marshal_options r.options) (J.marshal_members r.members)
        (J.marshal_players r.reveal) s,
  )

  -- No commit fails of a transaction that begins on the database.
  abbrev pub Commits : D.Db → Type 0
  Commits d = (t : D.Tx) → L.base t ≡ d → (D.commit t).1 ≡ true

  -- A transaction that is not committed leaves the rows of both tables as they were.
  run_tx-failed :
      (t : D.Tx) (r : ResultRow J.Blob) (n : ℕ) (s : SqliteStore J D)
      → Commits s.db
      → D.begin_tx s.db ≡ some t
      → (run_tx J D (some t) r s).1 ≡ false
      → (D.query_snapshot (run_tx J D (some t) r s).0.db ≡ D.query_snapshot s.db)
        × (D.query_results n (run_tx J D (some t) r s).0.db ≡ D.query_results n s.db)
  run_tx-failed t r n s k b h =
      let t1 = (D.tx_save_result r t).0 in
      let t2 = (D.tx_delete_snapshot t1).0 in
      ground (
        arith,
        L.base-begin s.db t b,
        L.base-save r t,
        L.base-delete t1,
        L.query-rollback t,
        L.query-rollback t1,
        L.query-rollback t2,
        L.results-rollback n t,
        L.results-rollback n t1,
        L.results-rollback n t2,
        k t2,
      )

  save_result_encoded-failed :
      (r : GameResult) (o m p : Option J.Blob) (n : ℕ) (s : SqliteStore J D)
      → Commits s.db
      → (save_result_encoded J D r o m p s).1 ≡ false
      → (D.query_snapshot (save_result_encoded J D r o m p s).0.db ≡ D.query_snapshot s.db)
        × (D.query_results n (save_result_encoded J D r o m p s).0.db ≡ D.query_results n s.db)
  save_result_encoded-failed r none m p n s k h = (refl, refl)
  save_result_encoded-failed r (some o) none p n s k h = (refl, refl)
  save_result_encoded-failed r (some o) (some m) none n s k h = (refl, refl)
  save_result_encoded-failed r (some o) (some m) (some p) n s k h =
      elim (Option-cases (D.begin_tx s.db)) [
        | inl q ↦ ground (arith)
        | inr (t, q) ↦ ground (arith, run_tx-failed t (result_row J D r o m p) n s k q)
      ]

  run_tx-stmts :
      (t : Option D.Tx) (r : ResultRow J.Blob) (s : SqliteStore J D)
      → (run_tx J D t r s).0.stmts ≡ s.stmts
  run_tx-stmts none r s = refl
  run_tx-stmts (some t) r s = ground (arith)

  save_result_encoded-stmts :
      (r : GameResult) (o m p : Option J.Blob) (s : SqliteStore J D)
      → (save_result_encoded J D r o m p s).0.stmts ≡ s.stmts
  save_result_encoded-stmts r none m p s = refl
  save_result_encoded-stmts r (some o) none p s = refl
  save_result_encoded-stmts r (some o) (some m) none s = refl
  save_result_encoded-stmts r (some o) (some m) (some p) s =
      run_tx-stmts (D.begin_tx s.db) (result_row J D r o m p) s

  -- If no commit fails of a transaction that begins on the store's database, then saving a result that
  -- fails, in its encoding, at the beginning of the transaction, at the insertion or at the deletion,
  -- keeps the active snapshot and the list of the results that are read back.
  pub save_result-atomic :
      (r : GameResult) (limit : ℤ) (s : SqliteStore J D)
      → Commits s.db
      → (sqlite_save_result_and_clear_active J D r s).1 ≡ false
      → (sqlite_load_active_snapshot J D (sqlite_save_result_and_clear_active J D r s).0
          ≡ sqlite_load_active_snapshot J D s)
        × (sqlite_list_results J D limit (sqlite_save_result_and_clear_active J D r s).0
            ≡ sqlite_list_results J D limit s)
  unfolding sqlite_save_result_and_clear_active sqlite_load_active_snapshot sqlite_list_results
  save_result-atomic r limit s k h =
      let o = J.marshal_options r.options in
      let m = J.marshal_members r.members in
      let p = J.marshal_players r.reveal in
      let n = if leb_ℤ limit (pos 0) then 100 else pos_part limit in
      ground (arith, save_result_encoded-failed r o m p n s k, save_result_encoded-stmts r o m p s)

module _ (J : Json) (B : DecodesBack J) (D : Database J.Blob) (L : IsSql D) where
  -- The store on a database keeps what the interface documents, if JSON decodes what it encoded and
  -- the statements do what SQL defines.
  pub sqlite-IsDurable : IsDurable (sqlite_store J D)
  sqlite-IsDurable = record { load-save = load-save J B D L; load-clear = load-clear J D L }
