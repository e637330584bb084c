-- ===== src/Ws/Protocol.antt =====
-- internal/transport/ws/protocol.go and the payloads of dispatch.go: the messages of the wire,
-- before their JSON encoding.
use Prim.Native.Nat.{◌/◌}
use mafia_game_party.Prelude.{
  ℕ, Bool, false, Option, none, some, List, [], String, PlayerId, nobody, ℤ, pos, negsuc, sub_ℕ,
}
use mafia_game_party.Prelude.Time.{Time}
use mafia_game_party.Game.Types.{Role, Team, Phase, NightStep, EndReason, Options}
use mafia_game_party.Game.State.{Player, State}
use mafia_game_party.Game.Event.{
  Visibility, Event, player_joined, game_started, phase_changed, role_revealed_to_player,
  mafia_cohort_revealed, intro_speaker_changed, mafia_target_selected, police_result,
  night_step_changed, game_paused, game_resumed, death_announced, peaceful_night,
  discussion_timer_tick, vote_tallied, eliminated, mafia_representative_reassigned, game_ended,
  voice_toggled,
}
use mafia_game_party.Announce.{Severity}

-- id.go: `type ClientID string`
abbrev pub ClientId : Type 0
ClientId = String

pub record YourInfo : Type 0 where
  pub role : Role
  pub keyword : String
  pub team : Team
  pub mafia_cohort : List PlayerId

-- Empty fields are the zero values, which the encoding leaves out.
pub record EventPayload : Type 0 where
  pub kind : String
  pub player_id : PlayerId
  pub name : String
  pub target : PlayerId
  pub role : Role
  pub keyword : String
  pub team : Team
  pub mafia_ids : List PlayerId
  pub representative_id : PlayerId
  pub police : PlayerId
  pub phase : Phase
  pub day : ℕ
  pub deadline_ms : ℤ
  pub seconds_left : ℤ
  pub victim : PlayerId
  pub counts : List (PlayerId × ℕ)
  pub eliminated : Option PlayerId
  pub recount : Bool
  pub old_id : PlayerId
  pub new_id : PlayerId
  pub winner : Option Team
  pub end_reason : Option EndReason
  pub reveal : List Player
  pub on : Option Bool
  pub step : NightStep
  pub step_deadline_ms : ℤ

-- `eventPayload{Kind: kind}`
unfoldable pub payload : String → EventPayload
payload kind = record {
  kind = kind;
  player_id = nobody;
  name = "";
  target = nobody;
  role = Role.unset;
  keyword = "";
  team = Team.unset;
  mafia_ids = [];
  representative_id = nobody;
  police = nobody;
  phase = Phase.unset;
  day = 0;
  deadline_ms = pos 0;
  seconds_left = pos 0;
  victim = nobody;
  counts = [];
  eliminated = none;
  recount = false;
  old_id = nobody;
  new_id = nobody;
  winner = none;
  end_reason = none;
  reveal = [];
  on = none;
  step = NightStep.unset;
  step_deadline_ms = pos 0;
}

-- `t.UnixMilli()`: the year 1970 begins 62 135 596 800 seconds after the zero time.
unfoldable pub unix_milli : Time → ℤ
unix_milli t = sub_ℕ (t / 1_000_000) 62_135_596_800_000

unfoldable pub time_to_ms : ℤ → ℤ
time_to_ms (pos n) = pos n
time_to_ms (negsuc n) = pos 0

unfoldable pub build_event_payload : Event → EventPayload
build_event_payload (player_joined i n) = record (payload "PlayerJoined") {
  player_id = i;
  name = n;
}
build_event_payload (game_started s) = payload "GameStarted"
build_event_payload (phase_changed p d t) = record (payload "PhaseChanged") {
  phase = p;
  day = d;
  deadline_ms = time_to_ms (unix_milli t);
}
build_event_payload (role_revealed_to_player i r k) = record (payload "RoleRevealedToPlayer") {
  player_id = i;
  role = r;
  keyword = k;
}
build_event_payload (mafia_cohort_revealed is r) = record (payload "MafiaCohortRevealed") {
  mafia_ids = is;
  representative_id = r;
}
build_event_payload (intro_speaker_changed i n) = record (payload "IntroSpeakerChanged") {
  player_id = i;
  seconds_left = n;
}
build_event_payload (mafia_target_selected r t) = record (payload "MafiaTargetSelected") {
  representative_id = r;
  target = t;
}
build_event_payload (police_result p t m) = record (payload "PoliceResult") {
  police = p;
  target = t;
  team = m;
}
build_event_payload (night_step_changed s d t) = record (payload "NightStepChanged") {
  step = s;
  day = d;
  step_deadline_ms = time_to_ms (unix_milli t);
}
build_event_payload (game_paused p) = record (payload "GamePaused") { phase = p }
build_event_payload (game_resumed p t) = record (payload "GameResumed") {
  phase = p;
  deadline_ms = time_to_ms (unix_milli t);
}
build_event_payload (death_announced v) = record (payload "DeathAnnounced") { victim = v }
build_event_payload peaceful_night = payload "PeacefulNight"
build_event_payload (discussion_timer_tick n) = record (payload "DiscussionTimerTick") {
  seconds_left = pos n;
}
build_event_payload (vote_tallied cs e r) = record (payload "VoteTallied") {
  counts = cs;
  eliminated = e;
  recount = r;
}
build_event_payload (eliminated i r) = record (payload "Eliminated") { player_id = i; role = r }
build_event_payload (mafia_representative_reassigned o n) =
    record (payload "MafiaRepresentativeReassigned") { old_id = o; new_id = n }
build_event_payload (game_ended w r ps) = record (payload "GameEnded") {
  winner = w;
  end_reason = some r;
  reveal = ps;
}
build_event_payload (voice_toggled b) = record (payload "VoiceToggled") { on = some b }

unfoldable pub visibility_to_string : Visibility → String
visibility_to_string Visibility.public = "PUBLIC"
visibility_to_string Visibility.player = "PLAYER"
visibility_to_string Visibility.role_mafia = "ROLE_MAFIA"

-- What the server sends, one constructor for each message struct. The developers' text of an error
-- is left out.
pub data Message : Type 0 where
  welcome : ClientId → String → String → Message
  joined : PlayerId → String → Bool → Message
  snapshot : State → YourInfo → Bool → Message
  event : String → EventPayload → Message
  announce : String → String → Severity → Message
  error : String → Message
  host_token : String → Message
  room_opened : Options → Message
  room_host_occupied : Message
  room_closed : Message

-- What a client sends, one constructor for each type of message, with the fields of its payload that
-- the handler reads. `malformed` is a message that is not JSON, has no type, or has a payload that
-- does not fit its type.
pub data Request : Type 0 where
  malformed unknown_type subscribe_public : Request
  create_session join resume : String → Request
  host_start : Options → Request
  advance_intro end_self_intro end_night end_discussion force_end pause resume_game : Request
  mafia_kill doctor_heal police_check vote : PlayerId → Request
  toggle_voice : Bool → Request
  host_claim host_start_room host_terminate_room host_close_room : Request
  host_open_room host_save_options : Options → Request

abbrev pub protocol_version : String
protocol_version = "v1"
