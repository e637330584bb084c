-- ===== src/Game/State.antt =====
-- internal/game/types.go: the players, the state and its queries; state_clone.go. A value of the
-- model has no aliases, so the deep copies that `Clone` makes are the value itself.
use mafia_game_party.Prelude.{
  ℕ, Bool, false, not, ◌&&◌, Option, none, some, List, [], ◌∷◌, String, PlayerId, ◌===◌,
  if◌then◌else◌, count_if, any, nobody, pos,
}
use mafia_game_party.Prelude.Time.{Time, zero_time}
use mafia_game_party.Game.Types.{Role, is_role, Team, Phase, NightStep, EndReason, Options}

pub record Player : Type 0 where
  pub id : PlayerId
  pub name : String
  pub alive : Bool
  pub role : Role
  pub keyword : String

pub record PendingActions : Type 0 where
  pub mafia_target : Option PlayerId
  pub doctor_target : Option PlayerId
  pub police_target : Option PlayerId

pub record PoliceCheckRecord : Type 0 where
  pub day : ℕ
  pub target : PlayerId
  pub team : Team

pub record PendingGameEnd : Type 0 where
  pub reason : EndReason
  pub winner : Option Team
  pub deadline : Time

-- A pointer is an `Option`, a map an association list. `Day`, `IntroSpeakerIdx` and `VoteRound`
-- start at 0 or above and are only counted up, so they are natural numbers.
pub record State : Type 0 where
  pub game_id : String
  pub phase : Phase
  pub day : ℕ
  pub players : List Player
  pub host_id : PlayerId
  pub settings : Options
  pub started_at : Time
  pub deadline : Time
  pub intro_speaker_idx : ℕ
  pub intro_speaker_started_at : Time
  pub mafia_representative_id : PlayerId
  pub pending_mafia_target : Option PlayerId
  pub pending_doctor_target : Option PlayerId
  pub pending_police_target : Option PlayerId
  pub police_checked_this_night : Bool
  pub night_step : NightStep
  pub night_step_deadline : Time
  pub paused : Bool
  pub paused_at : Time
  pub police_history : List PoliceCheckRecord
  pub votes : List (PlayerId × PlayerId)
  pub vote_round : ℕ
  pub vote_candidates : List PlayerId
  pub winner : Option Team
  pub end_reason : Option EndReason
  pub pending_game_end : Option PendingGameEnd
  pub last_tick_at : Time

-- `Options{}`
abbrev pub no_options : Options
no_options = record {
  mafia_count = pos 0;
  max_players = pos 0;
  intro_seconds_per_player = pos 0;
  discussion_seconds = pos 0;
  night_mafia_seconds = pos 0;
  night_police_seconds = pos 0;
  night_doctor_seconds = pos 0;
  doctor_self_heal_allowed = false;
  announcement_voice_on = false;
}

-- `State{}`
abbrev pub zero_state : State
zero_state = record {
  game_id = "";
  phase = Phase.unset;
  day = 0;
  players = [];
  host_id = nobody;
  settings = no_options;
  started_at = zero_time;
  deadline = zero_time;
  intro_speaker_idx = 0;
  intro_speaker_started_at = zero_time;
  mafia_representative_id = nobody;
  pending_mafia_target = none;
  pending_doctor_target = none;
  pending_police_target = none;
  police_checked_this_night = false;
  night_step = NightStep.unset;
  night_step_deadline = zero_time;
  paused = false;
  paused_at = zero_time;
  police_history = [];
  votes = [];
  vote_round = 0;
  vote_candidates = [];
  winner = none;
  end_reason = none;
  pending_game_end = none;
  last_tick_at = zero_time;
}

pub pending : State → PendingActions
pending s = record {
  mafia_target = s.pending_mafia_target;
  doctor_target = s.pending_doctor_target;
  police_target = s.pending_police_target;
}

-- The first player with the id.
unfoldable pub find_player : PlayerId → List Player → Option Player
find_player i [] = none
find_player i (p ∷ ps) = if p.id === i then some p else find_player i ps

-- The write `p.Alive = false` through the pointer that `FindPlayer` returns.
unfoldable pub kill : PlayerId → List Player → List Player
kill i [] = []
kill i (p ∷ ps) = if p.id === i then record p { alive = false } ∷ ps else p ∷ kill i ps

abbrev pub is_live_mafia : Player → Bool
is_live_mafia p = p.alive && is_role p.role Role.mafia

abbrev pub is_live_citizen_side : Player → Bool
is_live_citizen_side p = p.alive && not (is_role p.role Role.mafia)

unfoldable pub live_count : List Player → ℕ
unfolding count_if
live_count = count_if (λ p. p.alive)

unfoldable pub live_mafia_count : List Player → ℕ
unfolding count_if
live_mafia_count = count_if is_live_mafia

unfoldable pub live_citizen_side_count : List Player → ℕ
unfolding count_if
live_citizen_side_count = count_if is_live_citizen_side

unfoldable pub has_living_doctor : List Player → Bool
unfolding any
has_living_doctor = any (λ p. p.alive && is_role p.role Role.doctor)

unfoldable pub has_living_police : List Player → Bool
unfolding any
has_living_police = any (λ p. p.alive && is_role p.role Role.police)

unfoldable pub living_mafia_ids : List Player → List PlayerId
living_mafia_ids [] = []
living_mafia_ids (p ∷ ps) =
    let rest = living_mafia_ids ps in if is_live_mafia p then p.id ∷ rest else rest
