-- ===== src/Persistence/Sqlite/Archived.antt =====
-- A store that has been archived.
use mafia_game_party.Prelude.{Bool, true, false, Option, none, some, String, ℤ, ◌≡◌, refl, arith}
use mafia_game_party.Game.Event.{EventEnvelope}
use mafia_game_party.Persistence.{Snapshot, GameResult, load_failed, found}
use mafia_game_party.Persistence.Database.{
  Json, Database, ResultRow, FileState, present, missing, stat_failed,
}
use mafia_game_party.Persistence.Sqlite.{
  SqliteStore, sqlite_archive_corrupt, sqlite_close, archived, renamed, save_encoded, run_tx,
  save_result_encoded, append_encoded, sqlite_save_snapshot, sqlite_load_active_snapshot,
  sqlite_save_result_and_clear_active, sqlite_append_event, sqlite_delete_active_snapshot,
  sqlite_list_results, sqlite_store, result_row,
}
use mafia_game_party.Game.Types.{Phase, phase_dec}
use mafia_game_party.Game.Start.{restore}
use mafia_game_party.Announce.{Catalog}
use mafia_game_party.Session.Types.{Manager}
use mafia_game_party.Session.Boot.{boot_restore}

module _ (J : Json) (D : Database J.Blob) where
  save_encoded-closed :
      (snap : Snapshot) (a b : Option J.Blob) (s : SqliteStore J D)
      → s.stmts ≡ false
      → (save_encoded J D snap a b s).1 ≡ false
  save_encoded-closed snap none b s h = refl
  save_encoded-closed snap (some a) none s h = refl
  save_encoded-closed snap (some a) (some b) s h = ground arith

  run_tx-closed :
      (t : Option D.Tx) (r : ResultRow J.Blob) (s : SqliteStore J D)
      → s.stmts ≡ false
      → (run_tx J D t r s).1 ≡ false
  run_tx-closed none r s h = refl
  run_tx-closed (some t) r s h = ground arith

  save_result_encoded-closed :
      (r : GameResult) (o m p : Option J.Blob) (s : SqliteStore J D)
      → s.stmts ≡ false
      → (save_result_encoded J D r o m p s).1 ≡ false
  save_result_encoded-closed r none m p s h = refl
  save_result_encoded-closed r (some o) none p s h = refl
  save_result_encoded-closed r (some o) (some m) none s h = refl
  save_result_encoded-closed r (some o) (some m) (some p) s h =
      run_tx-closed (D.begin_tx s.db) (result_row J D r o m p) s h

  append_encoded-closed :
      (g : String) (env : EventEnvelope) (a : Option J.Blob) (s : SqliteStore J D)
      → s.stmts ≡ false
      → (append_encoded J D g env a s).1 ≡ false
  append_encoded-closed g env none s h = refl
  append_encoded-closed g env (some a) s h = ground arith

  renamed-stmts : (x : D.Db × Bool) (s : SqliteStore J D) → (renamed J D x s).0.stmts ≡ s.stmts
  renamed-stmts (d, false) s = refl
  renamed-stmts (d, true) s = refl

  archived-stmts : (x : FileState) (s : SqliteStore J D) → (archived J D x s).0.stmts ≡ s.stmts
  archived-stmts missing s = refl
  archived-stmts stat_failed s = refl
  archived-stmts present s = renamed-stmts (D.rename s.db) s

  archive-stmts : (s : SqliteStore J D) → (sqlite_archive_corrupt J D s).0.stmts ≡ false
  unfolding sqlite_archive_corrupt sqlite_close
  archive-stmts s =
      ground (arith, archived-stmts (D.stat (sqlite_close J D s).0.db) (sqlite_close J D s).0)

  -- Saving, loading, deleting, listing and recording fail.
  pub record IsUnusable (s : SqliteStore J D) : Type 0 where
    pub no_save : (snap : Snapshot) → (sqlite_save_snapshot J D snap s).1 ≡ false
    pub no_load : sqlite_load_active_snapshot J D s ≡ load_failed
    pub no_delete : (sqlite_delete_active_snapshot J D s).1 ≡ false
    pub no_result : (r : GameResult) → (sqlite_save_result_and_clear_active J D r s).1 ≡ false
    pub no_list : (limit : ℤ) → sqlite_list_results J D limit s ≡ none
    pub no_event : (g : String) (env : EventEnvelope) → (sqlite_append_event J D g env s).1 ≡ false

  closed-IsUnusable : (s : SqliteStore J D) → s.stmts ≡ false → IsUnusable s
  unfolding sqlite_save_snapshot sqlite_load_active_snapshot sqlite_delete_active_snapshot
      sqlite_save_result_and_clear_active sqlite_list_results sqlite_append_event
  closed-IsUnusable s h = record {
    no_save = λ snap.
        save_encoded-closed snap (J.marshal_state snap.state) (J.marshal_members snap.members) s h;
    no_load = ground arith;
    no_delete = ground arith;
    no_result = λ r.
        let o = J.marshal_options r.options in
        let m = J.marshal_members r.members in
        let p = J.marshal_players r.reveal in ground (arith, save_result_encoded-closed r o m p s);
    no_list = λ limit. ground arith;
    no_event = λ g env. append_encoded-closed g env (J.marshal_event env.event) s h;
  }

  -- The active snapshot cannot be loaded, or its state cannot be restored.
  pub data IsCorrupt (s : SqliteStore J D) : Type 0 where
    not_loaded : sqlite_load_active_snapshot J D s ≡ load_failed → IsCorrupt s
    not_restored :
        (snap : Snapshot)
        → sqlite_load_active_snapshot J D s ≡ found snap
        → snap.state.phase ≡ Phase.unset
        → IsCorrupt s

  boot_restore-stmts :
      (C : Catalog) (m : Manager (sqlite_store J D))
      → IsCorrupt m.disk
      → (boot_restore C (sqlite_store J D) m).0.disk.stmts ≡ false
  unfolding boot_restore restore phase_dec
  boot_restore-stmts C m (not_loaded h) = rw h (archive-stmts m.disk)
  boot_restore-stmts C m (not_restored snap h u) = rw (h, u) (archive-stmts m.disk)

  -- The session keeps the store that it has archived: if the active snapshot cannot be loaded when a
  -- process starts, or its state has no phase, then after the start, also where it succeeds, saving a
  -- snapshot or a result, loading and deleting the snapshot, listing the results and recording an
  -- event fail, whatever their arguments are.
  pub boot_restore-IsUnusable :
      (C : Catalog) (m : Manager (sqlite_store J D))
      → IsCorrupt m.disk
      → IsUnusable (boot_restore C (sqlite_store J D) m).0.disk
  boot_restore-IsUnusable C m h =
      closed-IsUnusable (boot_restore C (sqlite_store J D) m).0.disk (boot_restore-stmts C m h)
