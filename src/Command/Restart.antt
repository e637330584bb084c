-- ===== src/Command/Restart.antt =====
-- A process goes on with the game that the process before it has shut down.
use mafia_game_party.Prelude.{PlayerId, [], ◌∷◌, ℕ, true, false, List, String, ◌≡◌, ◌≢◌, sym, arith}
use mafia_game_party.Prelude.Time.{Time}
use mafia_game_party.Game.Types.{Phase}
use mafia_game_party.Game.Engine.{Engine}
use mafia_game_party.Game.Start.{snapshot}
use mafia_game_party.Game.Rand.{Rng}
use mafia_game_party.Announce.{Catalog}
use mafia_game_party.Persistence.Database.{Json, DecodesBack, Database, IsSql, IsKeptOpen}
use mafia_game_party.Persistence.Sqlite.{sqlite_store, sqlite_close, sqlite_save_snapshot}
use mafia_game_party.Persistence.Sqlite.Opening.{open_sqlite}
use mafia_game_party.Persistence.Sqlite.Durable.{load-save}
use mafia_game_party.Persistence.Sqlite.Reopen.{load-reopen}
use mafia_game_party.Session.Types.{SessionOpts, Member, Manager}
use mafia_game_party.Session.Boot.{session_new, new_manager, unsubscribe, close, final_snapshot}
use mafia_game_party.Session.Boot.Recover.{IsTable, IsRecovered, restored_snapshot}
use mafia_game_party.Ws.Hub.{Hub, hub_new, hub_close}
use mafia_game_party.Ws.Handler.Run.{
  HubCall, hub_run, AllFit, hub_run-IsConsistent, hub_new-IsConsistent,
}
use mafia_game_party.Session.Members.Ids.{HaveIds}
use mafia_game_party.Command.{shutdown}

module _ (J : Json) (D : Database J.Blob) (C : Catalog) where
  shutdown-disk :
      (h : Hub (sqlite_store J D))
      → h.manager.closed ≡ false
      → h.manager.sess.started ≡ true
      → (shutdown J D C h).manager.disk
        ≡ (sqlite_close J D
            (sqlite_save_snapshot J D
              (final_snapshot (sqlite_store J D) h.manager)
              h.manager.disk).0).0
  unfolding shutdown close hub_close unsubscribe
  shutdown-disk h c s = ground arith

  restart_recovers :
      DecodesBack J
      → IsSql D
      → IsKeptOpen D
      → (path : String) (h : Hub (sqlite_store J D)) (e : Engine) (now : Time) (rand : List ℕ)
        (opts : SessionOpts)
      → h.manager.closed ≡ false
      → h.manager.sess.started ≡ true
      → (sqlite_save_snapshot J D (final_snapshot (sqlite_store J D) h.manager) h.manager.disk).1
        ≡ true
      → (open_sqlite J D path (shutdown J D C h).manager.disk.db).1 ≡ true
      → h.manager.engine.state.phase ≢ Phase.unset
      → h.manager.engine.state.phase ≢ Phase.end
      → IsTable h.manager.sess.members
      → IsRecovered C (sqlite_store J D) h.manager.engine.state h.manager.sess (
          session_new C
            (sqlite_store J D)
            e
            (open_sqlite J D path (shutdown J D C h).manager.disk.db).0
            now
            rand
            opts)
  unfolding session_new snapshot
  restart_recovers B L K path h e now rand opts c s w o unset ended t =
      let S = sqlite_store J D in
      let snap = final_snapshot S h.manager in
      let saved = (sqlite_save_snapshot J D snap h.manager.disk).0 in
      let reopened = open_sqlite J D path (shutdown J D C h).manager.disk.db in
      restored_snapshot C S h.manager.engine.state h.manager.sess
        (new_manager C S e reopened.0 now rand opts) unset ended t
        (rw (shutdown-disk h c s) (
          load-reopen J D K path saved snap (load-save J B D L snap h.manager.disk w)
            (rw (sym (shutdown-disk h c s)) o)))

HaveIds-IsTable : (members : List (PlayerId × Member)) → HaveIds members → IsTable members
unfolding HaveIds IsTable
HaveIds-IsTable [] h = tt
HaveIds-IsTable ((i, m) ∷ members) h = (h.1, h.2, HaveIds-IsTable members h.3)

module _ (J : Json) (D : Database J.Blob) (C : Catalog) (encode : List ℕ → String) (R : Rng)
    (cs : List HubCall) (m : Manager (sqlite_store J D)) where
  -- The hub after the calls.
  abbrev pub served : Hub (sqlite_store J D)
  served = hub_run C (sqlite_store J D) encode R cs (hub_new m)

  -- Suppose that JSON decodes what it encoded, the statements do what SQL defines and opening a file
  -- keeps its rows, and that a new hub, whose manager's members each stand under their own id, which is
  -- not empty, and under no other, gets calls of which each fits the hub that it meets. If then the
  -- manager is not closed, a game is started, its phase is neither empty nor the end, the process is
  -- shut down, its last snapshot is saved and the file is opened again, the session of the next process
  -- starts without an error, with the game's state and all members, without their connections.
  pub served_game_recovers :
      DecodesBack J
      → IsSql D
      → IsKeptOpen D
      → HaveIds m.sess.members
      → AllFit C (sqlite_store J D) encode R cs (hub_new m)
      → (path : String) (e : Engine) (now : Time) (rand : List ℕ) (opts : SessionOpts)
      → served.manager.closed ≡ false
      → served.manager.sess.started ≡ true
      → (sqlite_save_snapshot J D
          (final_snapshot (sqlite_store J D) served.manager)
          served.manager.disk).1
        ≡ true
      → (open_sqlite J D path (shutdown J D C served).manager.disk.db).1 ≡ true
      → served.manager.engine.state.phase ≢ Phase.unset
      → served.manager.engine.state.phase ≢ Phase.end
      → IsRecovered C (sqlite_store J D) served.manager.engine.state served.manager.sess (
          session_new C
            (sqlite_store J D)
            e
            (open_sqlite J D path (shutdown J D C served).manager.disk.db).0
            now
            rand
            opts)
  served_game_recovers B L K k f path e now rand opts c s w o unset ended =
      let S = sqlite_store J D in
      let v = hub_run-IsConsistent C S encode R cs (hub_new m) (hub_new-IsConsistent C S m k) f in
      restart_recovers J D C B L K path served e now rand opts c s w o unset ended
        (HaveIds-IsTable served.manager.sess.members v.ids)
