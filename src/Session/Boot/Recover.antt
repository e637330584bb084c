-- ===== src/Session/Boot/Recover.antt =====
-- A new process goes on where the last snapshot was taken.
use mafia_game_party.Prelude.{
  true, false, none, List, [], ◌∷◌, ◌++◌, PlayerId, if◌then◌else◌, lookup, insert, ◌≡◌, refl, ◌∙◌,
  ap, sym, ◌≢◌, arith,
}
use mathlib.Core.List.{append-nil, append_assoc}
use mafia_game_party.Game.Types.{Phase}
use mafia_game_party.Game.State.{State}
use mafia_game_party.Game.Event.{EventEnvelope}
use mafia_game_party.Game.Start.{restore}
use mafia_game_party.Announce.{Catalog}
use mafia_game_party.Persistence.{Store, IsDurable, found}
use mafia_game_party.Session.Types.{Member, Session, Manager, Outcome, done}
use mafia_game_party.Session.Members.{persisted_members, persisted}
use mafia_game_party.Session.Dispatch.{
  persist_and_dispatch, find_game_ended, should_persist, log_events, snapshot_of,
}
use mafia_game_party.Session.Dispatch.Frame.{persist_and_dispatch-saved}
use mafia_game_party.Session.Boot.{restored_members, member_of, boot_restore, is_active_phase}

-- Each member stands under its own id, and under no other.
unfoldable pub IsTable : List (PlayerId × Member) → Type 0
IsTable [] = Unit
IsTable ((id, m) ∷ ms) = (m.id ≡ id) × (lookup id ms ≡ none) × IsTable ms

-- The same members, without a connection.
unfoldable pub disconnected : List (PlayerId × Member) → List (PlayerId × Member)
disconnected [] = []
disconnected ((id, m) ∷ ms) = (id, record m { connected = false }) ∷ disconnected ms

unfoldable Apart : List (PlayerId × Member) → List (PlayerId × Member) → Type 0
Apart [] acc = Unit
Apart ((id, m) ∷ ms) acc = (lookup id acc ≡ none) × Apart ms acc

insert-fresh :
    (id : PlayerId) (m : Member) (acc : List (PlayerId × Member))
    → lookup id acc ≡ none
    → insert id m acc ≡ acc ++ (id, m) ∷ []
unfolding insert lookup
insert-fresh id m [] h = refl
insert-fresh id m ((j, x) ∷ acc) h = ground (arith, insert-fresh id m acc)

lookup-append_one :
    (j id : PlayerId) (m : Member) (acc : List (PlayerId × Member))
    → lookup j acc ≡ none
    → j ≢ id
    → lookup j (acc ++ (id, m) ∷ []) ≡ none
unfolding lookup
lookup-append_one j id m [] h n = ground arith
lookup-append_one j id m ((i, x) ∷ acc) h n = ground (arith, lookup-append_one j id m acc)

Apart-append :
    (id : PlayerId) (x : Member) (ms acc : List (PlayerId × Member))
    → lookup id ms ≡ none
    → Apart ms acc
    → Apart ms (acc ++ (id, x) ∷ [])
unfolding Apart lookup
Apart-append id x [] acc h a = tt
Apart-append id x ((j, m) ∷ ms) acc h a =
    (lookup-append_one j id x acc a.0 (ground arith), Apart-append id x ms acc (ground arith) a.1)

insert-own :
    (id : PlayerId) (m : Member) (acc : List (PlayerId × Member))
    → m.id ≡ id
    → lookup id acc ≡ none
    → insert m.id (member_of (persisted m)) acc ≡ acc ++ (id, record m { connected = false }) ∷ []
insert-own id m acc e h =
    insert-fresh m.id (member_of (persisted m)) acc (rw e h)
    ∙ ap (λ j. acc ++ (j, record m { connected = false }) ∷ []) e

restored_members-append :
    (ms acc : List (PlayerId × Member))
    → IsTable ms
    → Apart ms acc
    → restored_members (persisted_members ms) acc ≡ acc ++ disconnected ms
unfolding restored_members persisted_members IsTable Apart disconnected
restored_members-append [] acc t a = sym (append-nil acc)
restored_members-append ((id, m) ∷ ms) acc t a =
    let x : Member = record m { connected = false } in
    ap (restored_members (persisted_members ms)) (insert-own id m acc t.0 a.0)
    ∙ restored_members-append ms (acc ++ (id, x) ∷ []) t.2 (Apart-append id x ms acc t.1 a.1)
    ∙ append_assoc acc ((id, x) ∷ []) (disconnected ms)

Apart-nil : (ms : List (PlayerId × Member)) → Apart ms []
unfolding Apart lookup
Apart-nil [] = tt
Apart-nil ((id, m) ∷ ms) = (refl, Apart-nil ms)

restored_members_lem :
    (ms : List (PlayerId × Member))
    → IsTable ms
    → restored_members (persisted_members ms) [] ≡ disconnected ms
restored_members_lem ms t = restored_members-append ms [] t (Apart-nil ms)

module _ (C : Catalog) (S : Store) where
  -- The state and the members as the snapshot has them.
  abbrev pub IsRecovered : State → Session → Manager S × Outcome (Unit {0}) → Type 0
  IsRecovered s sess r =
      (r.1 ≡ done tt)
      × (r.0.engine.state ≡ s)
      × (r.0.sess.members ≡ disconnected sess.members)
      × (r.0.sess.game_id ≡ sess.game_id)
      × (r.0.sess.host_id ≡ sess.host_id)
      × (r.0.sess.started ≡ is_active_phase s.phase)

  pub restored_snapshot :
      (s : State) (sess : Session) (m : Manager S)
      → s.phase ≢ Phase.unset
      → s.phase ≢ Phase.end
      → IsTable sess.members
      → S.load_active_snapshot m.disk ≡ found (snapshot_of C S s sess)
      → IsRecovered s sess (boot_restore C S m)
  unfolding boot_restore restore
  restored_snapshot s sess m unset ended t h =
      rw h (ground (arith, restored_members_lem sess.members t))

  -- Suppose that the store is durable and has saved the snapshot of a call whose events have a trigger
  -- and no end of the game, the game's phase is neither empty nor the end, and each member stands under
  -- its own id. Then a process that starts on the disk as the call has left it succeeds, has the game's
  -- state again, and all members, without their connections; the game goes on exactly if its phase is
  -- one of a running game.
  pub game_recovers :
      IsDurable S
      → (s : State) (envs : List EventEnvelope) (m fresh : Manager S) → should_persist envs ≡ true
      → find_game_ended envs ≡ none
      → (S.save_snapshot
          (snapshot_of C S s m.sess)
          (if m.opts.event_log then log_events C S m.sess.game_id envs m.disk else m.disk)).1
        ≡ true
      → fresh.disk ≡ (persist_and_dispatch C S s envs m).0.disk
      → s.phase ≢ Phase.unset
      → s.phase ≢ Phase.end
      → IsTable m.sess.members
      → IsRecovered s m.sess (boot_restore C S fresh)
  game_recovers D s envs m fresh p g w d unset ended t =
      restored_snapshot s m.sess fresh unset ended t
        (ap S.load_active_snapshot d ∙ persist_and_dispatch-saved C S D s envs m p g w)
