-- ===== src/Session/Types.antt =====
-- internal/session/types.go and the fields of `session` in session.go.
use mafia_game_party.Prelude.{
  ℕ, Bool, Option, none, some, List, String, PlayerId, ℤ, pos, leb_ℤ, if◌then◌else◌,
}
use mafia_game_party.Prelude.Time.{Time, seconds}
use mafia_game_party.Game.Types.{Role, Team, Options}
use mafia_game_party.Game.State.{State}
use mafia_game_party.Game.Event.{EventEnvelope}
use mafia_game_party.Game.Error.{Failure}
use mafia_game_party.Game.Engine.{Engine}
use mafia_game_party.Announce.{Announcement}
use mafia_game_party.Persistence.{Store}

pub record Member : Type 0 where
  pub id : PlayerId
  pub name : String
  pub token : String
  pub connected : Bool
  pub joined_at : Time

-- `Members` is a map from ids.
pub record Session : Type 0 where
  pub game_id : String
  pub members : List (PlayerId × Member)
  pub host_id : PlayerId
  pub started : Bool
  pub started_at : Time
  pub pending_options : Options
  pub room_opened : Bool

pub record JoinResult : Type 0 where
  pub player_id : PlayerId
  pub token : String
  pub is_host : Bool
  pub current_state : State
  pub your_role : Role
  pub your_keyword : String
  pub your_team : Team
  pub mafia_cohort : List PlayerId

-- An announcement of the system has no envelope.
pub record EventOut : Type 0 where
  pub envelope : Option EventEnvelope
  pub announcement : Option Announcement
  pub state : State

pub record SessionOpts : Type 0 where
  pub tick_interval : ℤ
  pub event_log : Bool
  pub max_lobby_size : ℤ
  pub min_players : ℤ

or_else : ℤ → ℤ → ℤ
or_else v default = if leb_ℤ v (pos 0) then default else v

unfoldable pub with_defaults : SessionOpts → SessionOpts
unfolding or_else
with_defaults o = record o {
  tick_interval = or_else o.tick_interval (seconds (pos 1));
  max_lobby_size = or_else o.max_lobby_size (pos 12);
  min_players = or_else o.min_players (pos 6);
}

pub record RoomSnapshot : Type 0 where
  pub room_opened : Bool
  pub options : Options
  pub game_started : Bool
  pub state : State
  pub host_occupied : Bool

-- The errors of the manager: those of the game, those of the reader of tokens, those of the store.
pub data Fault : Type 0 where
  rejected : Failure → Fault
  rng_read : Fault
  token_collision : Fault
  archive_failed : Fault

pub data Outcome {ℓ} (A : Type ℓ) : Type ℓ where
  done : A → Outcome A
  fault : Fault → Outcome A

-- `host` is the token of the host's seat, "" while it is free; `rand` the bytes that the reader of
-- tokens still delivers; `clock` the reading of the session's clock during the call; `delivered` the
-- calls of subscribers, by the subscriber's number, so far.
pub record Manager (S : Store) : Type 0 where
  pub disk : S.Disk
  pub engine : Engine
  pub clock : Time
  pub rand : List ℕ
  pub sess : Session
  pub handlers : List ℕ
  pub next_handler : ℕ
  pub opts : SessionOpts
  pub closed : Bool
  pub system_msgs : List Announcement
  pub host : String
  pub saved_host_options : Options
  pub has_saved_host_options : Bool
  pub delivered : List (ℕ × EventOut)

-- A method of the manager: the manager that it leaves, with its result or its error.
abbrev pub Call : Store → Type 0 → Type 0
Call S A = Manager S → Manager S × Outcome A

-- `if … { return …, err }`
infixr 5 ◌>>◌
abbrev pub ◌>>◌ : {S : Store} {A : Type 0} → Option Failure → Call S A → Call S A
none >> k = k
some f >> k = λ m. (m, fault (rejected f))
