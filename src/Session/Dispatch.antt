-- ===== src/Session/Dispatch.antt =====
-- internal/session/action.go: saving what has happened, and telling the subscribers.
pub mod Frame
use mafia_game_party.Prelude.{
  ℕ, Bool, true, false, not, ◌||◌, Option, none, some, List, [], ◌∷◌, ◌++◌, map, String, PlayerId,
  if◌then◌else◌, lookup, any,
}
use mafia_game_party.Game.Types.{Phase, EndReason, Team}
use mafia_game_party.Game.State.{Player, State, find_player, zero_state}
use mafia_game_party.Game.Event.{
  Event, EventEnvelope, phase_changed, death_announced, eliminated, game_ended,
  mafia_representative_reassigned,
}
use mafia_game_party.Game.Engine.{Engine}
use mafia_game_party.Announce.{Announcement, is_empty, Catalog, CatalogContext}
use mafia_game_party.Persistence.{Snapshot, GameResult, Store}
use mafia_game_party.Session.Types.{Member, Session, EventOut, SessionOpts, Manager}
use mafia_game_party.Session.Members.{persisted_members}

unfoldable pub is_trigger : Event → Bool
is_trigger (phase_changed p d t) = true
is_trigger (death_announced i) = true
is_trigger (eliminated i r) = true
is_trigger (game_ended w r ps) = true
is_trigger (mafia_representative_reassigned o n) = true
is_trigger _ = false

unfoldable pub should_persist : List EventEnvelope → Bool
should_persist [] = false
should_persist (e ∷ es) = if is_trigger e.event then true else should_persist es

pub record Ending : Type 0 where
  pub winner : Option Team
  pub reason : EndReason
  pub reveal : List Player

unfoldable pub ending_of : Event → Option Ending
ending_of (game_ended w r ps) = some (record { winner = w; reason = r; reveal = ps })
ending_of _ = none

abbrev or_later : Option Ending → Option Ending → Option Ending
or_later none later = later
or_later (some g) later = some g

unfoldable pub find_game_ended : List EventEnvelope → Option Ending
find_game_ended [] = none
find_game_ended (e ∷ es) = or_later (ending_of e.event) (find_game_ended es)

abbrev name_of : Option Member → Option Player → PlayerId → String
name_of (some m) p i = m.name
name_of none (some p) i = p.name
name_of none none i = i

unfoldable pub catalog_context : Session → State → CatalogContext
catalog_context sess s = record {
  get_name = λ i. name_of (lookup i sess.members) (find_player i s.players) i;
  intro_seconds_per_player = s.settings.intro_seconds_per_player;
}

abbrev pub shown : Announcement → Option Announcement
shown a = if is_empty a then none else some a

-- the announcements that wait
unfoldable pub system_outs : List Announcement → State → List EventOut
system_outs [] s = []
system_outs (a ∷ rest) s =
    record { envelope = none; announcement = some a; state = s } ∷ system_outs rest s

-- one handler gets every output in turn
unfoldable pub deliveries : ℕ → List EventOut → List (ℕ × EventOut)
deliveries h [] = []
deliveries h (o ∷ os) = (h, o) ∷ deliveries h os

unfoldable pub dispatch_handlers : List ℕ → List EventOut → List (ℕ × EventOut)
dispatch_handlers [] outs = []
dispatch_handlers (h ∷ hs) outs = deliveries h outs ++ dispatch_handlers hs outs

module _ (C : Catalog) where
  unfoldable pub event_outs : CatalogContext → State → List EventEnvelope → List EventOut
  event_outs ctx s [] = []
  event_outs ctx s (e ∷ es) =
      record { envelope = some e; announcement = shown (C.render e ctx); state = s }
      ∷ event_outs ctx s es

module _ (C : Catalog) (S : Store) where
  abbrev failure_out : EventOut
  failure_out = record {
    envelope = none;
    announcement = some C.system_persist_failure;
    state = zero_state;
  }

  -- A failure of the log is only written to the developers' log.
  unfoldable pub log_events : String → List EventEnvelope → S.Disk → S.Disk
  log_events game_id [] d = d
  log_events game_id (e ∷ es) d = log_events game_id es (S.append_event game_id e d).0

  abbrev pub snapshot_of : State → Session → Snapshot
  snapshot_of s sess = record {
    game_id = sess.game_id;
    state = s;
    members = persisted_members sess.members;
    host_id = sess.host_id;
  }

  -- The disk after the snapshot, if one is due, and the announcement of a failure.
  unfoldable pub persist : Bool → State → Session → S.Disk → S.Disk × List EventOut
  persist false s sess d = (d, [])
  persist true s sess d =
      let (d', saved) = S.save_snapshot (snapshot_of s sess) d in
      (d', (if saved then [] else failure_out ∷ []))

  abbrev result_of : Ending → State → Manager S → GameResult
  result_of g s m = record {
    game_id = m.sess.game_id;
    started_at = m.sess.started_at;
    ended_at = m.clock;
    winner = g.winner;
    end_reason = g.reason;
    options = s.settings;
    members = persisted_members m.sess.members;
    reveal = g.reveal;
  }

  -- `handleGameEnd`, where the events have a `GameEnded`
  unfoldable pub handle_game_end : Option Ending → State → Manager S → Manager S
  handle_game_end none s m = m
  handle_game_end (some g) s m =
      let (d, saved) = S.save_result_and_clear_active (result_of g s m) m.disk in
      if saved
      then record m { disk = d; sess = record m.sess { started = false } }
      else record m { disk = d; system_msgs = m.system_msgs ++ C.system_persist_failure ∷ [] }

  unfoldable pub persist_and_dispatch :
      State → List EventEnvelope → Manager S → Manager S × List EventOut
  persist_and_dispatch s envs m =
      let ctx = catalog_context m.sess m.engine.state in
      let outs = system_outs m.system_msgs s ++ event_outs C ctx s envs in
      let logged = if m.opts.event_log then log_events m.sess.game_id envs m.disk else m.disk in
      let (d, failures) = persist (should_persist envs) s m.sess logged in
      let m' = handle_game_end (find_game_ended envs) s (record m { disk = d; system_msgs = [] }) in
      let all = outs ++ failures in
      (record m' { delivered = m'.delivered ++ dispatch_handlers m'.handlers all }, all)
