-- ===== src/Session/Dispatch/Frame.antt =====
-- What saving and telling the subscribers leaves as it is, and what it saves.
use mafia_game_party.Prelude.{true, Option, none, some, List, [], ◌≡◌, refl, arith, if◌then◌else◌}
use mafia_game_party.Game.State.{State}
use mafia_game_party.Game.Event.{EventEnvelope}
use mafia_game_party.Announce.{Catalog}
use mafia_game_party.Persistence.{Store, IsDurable, found}
use mafia_game_party.Session.Types.{Manager}
use mafia_game_party.Session.Dispatch.{
  Ending, persist_and_dispatch, handle_game_end, find_game_ended, should_persist, persist,
  log_events, snapshot_of,
}

module _ (C : Catalog) (S : Store) where
  handle_game_end-frame :
      (g : Option Ending) (s : State) (m : Manager S)
      → let m' = handle_game_end C S g s m in
        (m'.sess ≡ record m.sess { started = m'.sess.started })
        × (m'.engine ≡ m.engine)
        × (m'.host ≡ m.host)
        × (m'.rand ≡ m.rand)
        × (m'.handlers ≡ m.handlers)
        × (m'.opts ≡ m.opts)
  unfolding handle_game_end
  handle_game_end-frame none s m = (refl, refl, refl, refl, refl, refl)
  handle_game_end-frame (some g) s m = ground arith

  -- Of the session only the flag of a running game may change; the engine, the seat, the reader, the
  -- subscribers and the options stay.
  pub persist_and_dispatch-frame :
      (s : State) (envs : List EventEnvelope) (m : Manager S)
      → let m' = (persist_and_dispatch C S s envs m).0 in
        (m'.sess ≡ record m.sess { started = m'.sess.started })
        × (m'.engine ≡ m.engine)
        × (m'.host ≡ m.host)
        × (m'.rand ≡ m.rand)
        × (m'.handlers ≡ m.handlers)
        × (m'.opts ≡ m.opts)
  unfolding persist_and_dispatch
  persist_and_dispatch-frame s envs m =
      let logged = if m.opts.event_log then log_events C S m.sess.game_id envs m.disk else m.disk in
      let d = (persist C S (should_persist envs) s m.sess logged).0 in
      handle_game_end-frame (find_game_ended envs) s (record m { disk = d; system_msgs = [] })

  -- If a trigger is among the events and no end of the game, and the store has saved the snapshot, then
  -- what it loads is the snapshot of the state and the session.
  pub persist_and_dispatch-saved :
      IsDurable S
      → (s : State) (envs : List EventEnvelope) (m : Manager S)
      → let logged =
          if m.opts.event_log then log_events C S m.sess.game_id envs m.disk else m.disk in
        should_persist envs ≡ true
        → find_game_ended envs ≡ none
        → (S.save_snapshot (snapshot_of C S s m.sess) logged).1 ≡ true
        → S.load_active_snapshot (persist_and_dispatch C S s envs m).0.disk
          ≡ found (snapshot_of C S s m.sess)
  unfolding persist_and_dispatch handle_game_end persist
  persist_and_dispatch-saved D s envs m p g w =
      rw (p, g) (D.load-save (snapshot_of C S s m.sess) _ w)
