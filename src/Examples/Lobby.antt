-- ===== src/Examples/Lobby.antt =====
-- Witnesses: the theorems about the session applied to a concrete manager.
use mathlib.Core.List.{Perm}
use mafia_game_party.Prelude.{
  ℕ, true, false, none, some, List, [], ◌∷◌, String, PlayerId, id_dec, lookup, ◌++◌, pos, ◌≡◌, refl,
  ◌↔◌, arith,
}
use mafia_game_party.Game.Types.{Phase}
use mafia_game_party.Game.State.{no_options}
use mafia_game_party.Game.Event.{EventEnvelope, public_event, peaceful_night, phase_changed}
use mafia_game_party.Game.Error.{ErrorCode, errf}
use mafia_game_party.Game.Engine.{err}
use mafia_game_party.Announce.{no_announcement, Catalog}
use mafia_game_party.Persistence.{Loaded, nothing, found, Store, IsDurable}
use mafia_game_party.Session.Types.{Member, SessionOpts, Manager, done}
use mafia_game_party.Session.HostAuthority.{claim, verify}
use mafia_game_party.Session.HostAuthority.Seat.{
  SeatCall, claimed, released, seat_after, holds, host_keeps_seat,
}
use mafia_game_party.Session.HostOptions.{validate_saved_host_options}
use mafia_game_party.Session.HostOptions.Accept.{IsSavable, validate_saved_iff}
use mafia_game_party.Session.Token.{token_in_use, issue_unique_token, try_tokens, new_token}
use mafia_game_party.Session.Token.Unique.{IsNew, issue_unique_token-fresh}
use mafia_game_party.Session.Members.{order_members}
use mafia_game_party.Session.Members.Order.{IsOrdered, values, order_members_lem}
use mafia_game_party.Session.Members.Ids.{HaveIds}
use mafia_game_party.Session.Dispatch.{
  persist_and_dispatch, should_persist, is_trigger, find_game_ended, ending_of,
}
use mafia_game_party.Session.Lifecycle.{no_session, join_player}
use mafia_game_party.Session.Lifecycle.Lobby.{IsLobby, Differ, Without, join_player-IsLobby}
use mafia_game_party.Session.Boot.{boot_restore}
use mafia_game_party.Session.Boot.Recover.{IsTable, IsRecovered, game_recovers}
use mafia_game_party.Examples.Setup.{
  example_options, eight_bytes, fresh_engine, game_in, engine_with,
}
use mafia_game_party.Examples.Distinct.{differ}

-- A store of one slot, which never fails.
abbrev pub slot : Store
slot = record {
  Disk = Loaded;
  save_snapshot = λ snap d. (found snap, true);
  load_active_snapshot = λ d. d;
  delete_active_snapshot = λ d. (nothing, true);
  save_result_and_clear_active = λ r d. (nothing, true);
  list_results = λ n d. some [];
  append_event = λ game_id e d. (d, true);
  archive_corrupt = λ d. (nothing, true);
  close = λ d. (d, true);
}

slot-IsDurable : IsDurable slot
slot-IsDurable = record { load-save = λ snap d h. refl; load-clear = λ r d h. refl }

abbrev pub silent : Catalog
silent = record {
  render = λ e c. no_announcement;
  render_error = λ f i c. no_announcement;
  system_restore = no_announcement;
  system_persist_failure = no_announcement;
}

abbrev pub ann : Member
ann = record { id = "a"; name = "Ann"; token = "t1"; connected = true; joined_at = 20 }

abbrev pub ben : Member
ben = record { id = "b"; name = "Ben"; token = "t2"; connected = true; joined_at = 10 }

abbrev pub two_members : List (PlayerId × Member)
two_members = ("a", ann) ∷ ("b", ben) ∷ []

abbrev example_opts : SessionOpts
example_opts = record {
  tick_interval = pos 1_000_000_000;
  event_log = false;
  max_lobby_size = pos 12;
  min_players = pos 6;
}

abbrev pub lobby_of : List (PlayerId × Member) → Manager slot
lobby_of members = record {
  disk = nothing;
  engine = engine_with (game_in Phase.day);
  clock = 100;
  rand = eight_bytes;
  sess = record no_session { game_id = "g"; members = members; room_opened = true };
  handlers = 1 ∷ [];
  next_handler = 1;
  opts = example_opts;
  closed = false;
  system_msgs = [];
  host = "";
  saved_host_options = no_options;
  has_saved_host_options = false;
  delivered = [];
}

-- An encoding that gives every token the same text.
abbrev pub one_text : List ℕ → String
one_text bytes = "t3"

two-IsLobby : IsLobby (pos 12) two_members
unfolding Differ Without id_dec
two-IsLobby = record {
  names = ((differ "Ben" "Ann" refl, tt), (tt, tt));
  tokens = ((differ "t2" "t1" refl, tt), (tt, tt));
  size = omega arith;
  room = omega arith;
}

join_player-IsLobby_example :
    let m' = (join_player one_text silent slot "c" "Cem" (lobby_of two_members)).0 in
    (m'.opts ≡ example_opts) × IsLobby (pos 12) m'.sess.members
join_player-IsLobby_example =
    join_player-IsLobby one_text silent slot "c" "Cem" (lobby_of two_members) two-IsLobby

two-HaveIds : HaveIds two_members
unfolding HaveIds lookup id_dec
two-HaveIds = (differ "a" "" refl, refl, refl, (differ "b" "" refl, refl, refl, tt))

order_members_lem_example :
    Perm (order_members two_members "a") (values two_members)
    × IsOrdered (lookup "a" two_members) (order_members two_members "a")
order_members_lem_example = order_members_lem two_members "a" two-HaveIds

validate_saved_iff_example :
    (validate_saved_host_options example_options ≡ none) ↔ IsSavable example_options
validate_saved_iff_example = validate_saved_iff example_options

-- 32 bytes
abbrev pub token_bytes : List ℕ
token_bytes = eight_bytes ++ eight_bytes ++ eight_bytes ++ eight_bytes

issued : (issue_unique_token one_text two_members token_bytes).0 ≡ done "t3"
unfolding issue_unique_token try_tokens new_token token_in_use id_dec
issued = refl

issue_unique_token-fresh_example : IsNew "t3" two_members
issue_unique_token-fresh_example = issue_unique_token-fresh one_text two_members token_bytes issued

-- Between the host's claim and its end others claim the seat, and give tokens back that they guess.
abbrev seat_calls : List SeatCall
seat_calls = claimed (some "x") ∷ released "y" ∷ released "" ∷ claimed none ∷ []

seat_held : holds "h" seat_calls ≡ true
unfolding holds id_dec
seat_held = refl

host_keeps_seat_example :
    let current = seat_after seat_calls (claim (some "h") "").0 in
    ((verify "y" current ≡ none) ↔ (◌≡◌ {A = String} "y" "h"))
    × (claim (some "z") current ≡ ("h", err (errf ErrorCode.permission_denied)))
unfolding id_dec
host_keeps_seat_example =
    host_keeps_seat "h" seat_calls "y" (some "z") (differ "h" "" refl) seat_held

abbrev day_events : List EventEnvelope
day_events = public_event (phase_changed Phase.day 1 500) ∷ public_event peaceful_night ∷ []

pub two-IsTable : IsTable two_members
unfolding IsTable lookup id_dec
two-IsTable = (refl, refl, (refl, refl, tt))

day_saved : should_persist day_events ≡ true
unfolding should_persist is_trigger
day_saved = refl

day_goes_on : find_game_ended day_events ≡ none
unfolding find_game_ended ending_of
day_goes_on = refl

-- The disk after the call, in a process that knows nothing else.
abbrev reborn : Manager slot
reborn = record (lobby_of []) {
  disk =
      (persist_and_dispatch silent slot (game_in Phase.day) day_events
        (lobby_of two_members)).0.disk;
  engine = fresh_engine;
}

game_recovers_example :
    IsRecovered silent slot
      (game_in Phase.day)
      (lobby_of two_members).sess
      (boot_restore silent slot reborn)
game_recovers_example =
    game_recovers silent slot slot-IsDurable (game_in Phase.day) day_events (lobby_of two_members)
      reborn day_saved day_goes_on refl refl (λ h. cc) (λ h. cc) two-IsTable
