-- ===== src/Session/Boot.antt =====
-- internal/session/session.go: the start of the process, the subscribers, the views and the close.
pub mod Recover
use mafia_game_party.Prelude.{
  ℕ, suc, ◌==◌, Bool, true, false, not, ◌&&◌, ◌||◌, Option, none, some, List, [], ◌∷◌, ◌++◌, String,
  PlayerId, if◌then◌else◌, insert,
}
use mafia_game_party.Prelude.Time.{Time}
use mafia_game_party.Game.Types.{Phase, is_phase, EndReason}
use mafia_game_party.Game.State.{State, no_options}
use mafia_game_party.Game.Error.{Failure}
use mafia_game_party.Game.Engine.{Engine}
use mafia_game_party.Game.Start.{restore, snapshot}
use mafia_game_party.Announce.{Catalog}
use mafia_game_party.Persistence.{
  PersistedMember, Snapshot, GameResult, Loaded, load_failed, nothing, found, Store,
}
use mafia_game_party.Session.Types.{
  Member, Session, SessionOpts, with_defaults, RoomSnapshot, Outcome, done, fault, archive_failed,
  Manager, Call,
}
use mafia_game_party.Session.HostAuthority.{is_claimed}
use mafia_game_party.Session.Members.{lobby_state, persisted_members}
use mafia_game_party.Session.Lifecycle.{no_session}

unfoldable pub is_active_phase : Phase → Bool
is_active_phase p =
    not (is_phase p Phase.lobby) && (not (is_phase p Phase.end) && not (is_phase p Phase.unset))

-- A member comes back without a connection.
abbrev pub member_of : PersistedMember → Member
member_of m = record {
  id = m.id;
  name = m.name;
  token = m.token;
  connected = false;
  joined_at = m.joined_at;
}

unfoldable pub restored_members :
    List PersistedMember → List (PlayerId × Member) → List (PlayerId × Member)
restored_members [] members = members
restored_members (m ∷ ms) members = restored_members ms (insert m.id (member_of m) members)

abbrev pub restored_session : Snapshot → Session
restored_session snap = record no_session {
  game_id = snap.game_id;
  members = restored_members snap.members [];
  host_id = snap.host_id;
  started = is_active_phase snap.state.phase;
  started_at = snap.state.started_at;
}

abbrev reason_or : Option EndReason → EndReason
reason_or none = EndReason.host_force_end
reason_or (some r) = r

unfoldable pub build_result_from_state : Session → State → ℕ → GameResult
build_result_from_state sess s now = record {
  game_id = sess.game_id;
  started_at = sess.started_at;
  ended_at = now;
  winner = s.winner;
  end_reason = reason_or s.end_reason;
  options = s.settings;
  members = persisted_members sess.members;
  reveal = s.players;
}

module _ (C : Catalog) (S : Store) where
  archive : Call S Unit
  archive m =
      let (d, archived) = S.archive_corrupt m.disk in
      (record m { disk = d }, (if archived then done tt else fault archive_failed))

  abbrev finish_restore : Snapshot → Engine → Call S Unit
  finish_restore snap e m =
      let sess = restored_session snap in
      let ended = is_phase snap.state.phase Phase.end in
      let (d, saved) =
        S.save_result_and_clear_active (build_result_from_state sess snap.state m.clock) m.disk in
      (
        record m {
          engine = e;
          disk = (if ended then d else m.disk);
          sess = (if ended then record sess { started = false } else sess);
          system_msgs = m.system_msgs ++ C.system_restore ∷ [];
        },
        done tt,
      )

  abbrev restore_engine : Snapshot → Engine × Option Failure → Call S Unit
  restore_engine snap (e, some f) m = archive m
  restore_engine snap (e, none) m = finish_restore snap e m

  abbrev after_load : Loaded → Call S Unit
  after_load load_failed m = archive m
  after_load nothing m = (m, done tt)
  after_load (found snap) m = restore_engine snap (restore snap.state m.engine) m

  unfoldable pub boot_restore : Call S Unit
  unfolding archive
  boot_restore m = after_load (S.load_active_snapshot m.disk) m

  abbrev pub new_manager : Engine → S.Disk → Time → List ℕ → SessionOpts → Manager S
  new_manager engine disk clock rand opts = record {
    disk = disk;
    engine = engine;
    clock = clock;
    rand = rand;
    sess = no_session;
    handlers = [];
    next_handler = 0;
    opts = with_defaults opts;
    closed = false;
    system_msgs = [];
    host = "";
    saved_host_options = no_options;
    has_saved_host_options = false;
    delivered = [];
  }

  -- `New`, with a store, a catalog and an engine that are not nil
  unfoldable pub session_new :
      Engine → S.Disk → Time → List ℕ → SessionOpts → Manager S × Outcome (Unit {0})
  session_new engine disk clock rand opts = boot_restore (new_manager engine disk clock rand opts)

module _ (S : Store) where
  -- The number of the subscription stands for the function that ends it.
  unfoldable pub subscribe : Manager S → Manager S × ℕ
  subscribe m =
      let id = suc m.next_handler in
      (record m { next_handler = id; handlers = m.handlers ++ id ∷ [] }, id)

  remove_first : ℕ → List ℕ → List ℕ
  remove_first id [] = []
  remove_first id (h ∷ hs) = if h == id then hs else h ∷ remove_first id hs

  unfoldable pub unsubscribe : ℕ → Manager S → Manager S
  unfolding remove_first
  unsubscribe id m = record m { handlers = remove_first id m.handlers }

  unfoldable pub session_snapshot : Manager S → State
  session_snapshot m = snapshot m.engine

  unfoldable pub room_snapshot : Manager S → RoomSnapshot
  room_snapshot m =
      let s = snapshot m.engine in
      let shown =
        if not (is_active_phase s.phase) && not (is_phase s.phase Phase.end)
        then lobby_state m.sess.game_id m.sess.host_id m.sess.members
        else s in
      record {
        room_opened = m.sess.room_opened;
        options = m.sess.pending_options;
        game_started = is_active_phase shown.phase;
        state = shown;
        host_occupied = is_claimed m.host;
      }

  abbrev pub final_snapshot : Manager S → Snapshot
  final_snapshot m = record {
    game_id = m.sess.game_id;
    state = snapshot m.engine;
    members = persisted_members m.sess.members;
    host_id = m.sess.host_id;
  }

  -- The second close does nothing. The loop of ticks has stopped before the last snapshot, whose error
  -- is only logged.
  unfoldable pub close : Manager S → Manager S × Bool
  close m =
      let saved =
        if m.sess.started then (S.save_snapshot (final_snapshot m) m.disk).0 else m.disk in
      let (d, closed) = S.close saved in
      if m.closed then (m, true) else (record m { closed = true; disk = d }, closed)
