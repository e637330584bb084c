-- ===== src/Game/Event.antt =====
-- internal/game/event.go: the domain events and their envelopes; action.go: the engine's inputs.
use mafia_game_party.Prelude.{ℕ, ℤ, Bool, Option, List, String, PlayerId, nobody}
use mafia_game_party.Prelude.Time.{Time}
use mafia_game_party.Game.Types.{Role, Team, Phase, NightStep, EndReason, Options}
use mafia_game_party.Game.State.{Player, State}

pub data Visibility : Type 0 where
  public player role_mafia : Visibility

-- The arguments stand in the order of the Go struct's fields.
pub data Event : Type 0 where
  player_joined : PlayerId → String → Event
  game_started : State → Event
  phase_changed : Phase → ℕ → Time → Event
  role_revealed_to_player : PlayerId → Role → String → Event
  mafia_cohort_revealed : List PlayerId → PlayerId → Event
  intro_speaker_changed : PlayerId → ℤ → Event
  mafia_target_selected : PlayerId → PlayerId → Event
  police_result : PlayerId → PlayerId → Team → Event
  night_step_changed : NightStep → ℕ → Time → Event
  game_paused : Phase → Event
  game_resumed : Phase → Time → Event
  death_announced : PlayerId → Event
  peaceful_night : Event
  discussion_timer_tick : ℕ → Event
  vote_tallied : List (PlayerId × ℕ) → Option PlayerId → Bool → Event
  eliminated : PlayerId → Role → Event
  mafia_representative_reassigned : PlayerId → PlayerId → Event
  game_ended : Option Team → EndReason → List Player → Event
  voice_toggled : Bool → Event

pub record EventEnvelope : Type 0 where
  pub event : Event
  pub visibility : Visibility
  pub player_id : PlayerId

-- Go's `pub`, `priv` and `mafia`.
abbrev pub public_event : Event → EventEnvelope
public_event e = record { event = e; visibility = Visibility.public; player_id = nobody }

abbrev pub private_event : Event → PlayerId → EventEnvelope
private_event e i = record { event = e; visibility = Visibility.player; player_id = i }

abbrev pub mafia_event : Event → EventEnvelope
mafia_event e = record { event = e; visibility = Visibility.role_mafia; player_id = nobody }

pub data Action : Type 0 where
  start_game : PlayerId → Options → Action
  advance_intro : PlayerId → Action
  end_self_intro : PlayerId → Action
  submit_mafia_kill : PlayerId → PlayerId → Action
  submit_doctor_heal : PlayerId → PlayerId → Action
  submit_police_check : PlayerId → PlayerId → Action
  end_night_early : PlayerId → Action
  end_discussion_early : PlayerId → Action
  submit_vote : PlayerId → PlayerId → Action
  toggle_voice : PlayerId → Bool → Action
  force_end_game : PlayerId → Action
  pause_game : PlayerId → Action
  resume_game : PlayerId → Action
