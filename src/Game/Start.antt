-- ===== src/Game/Start.antt =====
-- internal/game/engine.go: `Start`, `Restore` and `Snapshot`; handlers_lifecycle.go: `StartGame`.
pub mod Fresh
use mafia_game_party.Prelude.{
  ℕ, Bool, true, false, not, ◌&&◌, ◌||◌, Option, none, some, List, [], ◌∷◌, ◌++◌, map, String,
  PlayerId, nobody, ◌===◌, if◌then◌else◌, any, length, get_elem?, ltb, lookup_or,
}
use mafia_game_party.Prelude.Time.{Time, zero_time}
use mafia_game_party.Game.Types.{Role, Phase, is_phase, NightStep, Options}
use mafia_game_party.Game.State.{Player, State}
use mafia_game_party.Game.Event.{
  EventEnvelope, public_event, private_event, mafia_event, game_started, role_revealed_to_player,
  mafia_cohort_revealed, phase_changed, intro_speaker_changed,
}
use mafia_game_party.Game.Error.{ErrorCode, Failure, errf}
use mafia_game_party.Game.Validation.{require}
use mafia_game_party.Game.Rand.{Rng, new_inner_rand}
use mafia_game_party.Game.Role.{Assignments, assign}
use mafia_game_party.Game.Engine.{Engine, Result, ok, err, Method, set_state, fail, succeed, ◌>>◌}
use mafia_game_party.Game.Lifecycle.{speaker}

-- `p.Alive = true; p.Role = …; p.Keyword = …` for each player
unfoldable pub with_roles : Assignments → List Player → List Player
with_roles asg [] = []
with_roles asg (p ∷ ps) =
    record p {
      alive = true;
      role = lookup_or Role.unset p.id asg.player_roles;
      keyword = lookup_or "" p.id asg.player_keywords;
    }
    ∷ with_roles asg ps

unfoldable pub reveal : Player → EventEnvelope
reveal p = private_event (role_revealed_to_player p.id p.role p.keyword) p.id

abbrev pub cohort : List PlayerId → PlayerId → List EventEnvelope
cohort [] rep = []
cohort (i ∷ is) rep = mafia_event (mafia_cohort_revealed (i ∷ is) rep) ∷ []

unfoldable pub start_events : Assignments → State → List EventEnvelope
unfolding reveal
start_events asg s =
    public_event (game_started s)
    ∷ (map reveal s.players
        ++ (cohort asg.mafia_ids asg.representative_id
            ++ public_event (phase_changed Phase.intro 1 zero_time)
              ∷ public_event
                  (intro_speaker_changed (speaker s 0) s.settings.intro_seconds_per_player)
              ∷ []))

-- The state that `Start` builds; fields that it does not name have their zero value.
unfoldable pub started_state :
    String → PlayerId → List Player → Options → Assignments → Time → State
unfolding with_roles
started_state game_id host players o asg now = record {
  game_id = game_id;
  phase = Phase.intro;
  day = 1;
  players = with_roles asg players;
  host_id = host;
  settings = o;
  started_at = now;
  deadline = zero_time;
  intro_speaker_idx = 0;
  intro_speaker_started_at = now;
  mafia_representative_id = asg.representative_id;
  pending_mafia_target = none;
  pending_doctor_target = none;
  pending_police_target = none;
  police_checked_this_night = false;
  night_step = NightStep.unset;
  night_step_deadline = zero_time;
  paused = false;
  paused_at = zero_time;
  police_history = [];
  votes = [];
  vote_round = 0;
  vote_candidates = [];
  winner = none;
  end_reason = none;
  pending_game_end = none;
  last_tick_at = now;
}

-- What `handleStartGame` writes: the other fields of the lobby's state stay.
unfoldable pub restarted_state : Options → Assignments → Time → State → State
unfolding with_roles
restarted_state o asg now s = record s {
  players = with_roles asg s.players;
  settings = o;
  phase = Phase.intro;
  day = 1;
  intro_speaker_idx = 0;
  intro_speaker_started_at = now;
  started_at = now;
  mafia_representative_id = asg.representative_id;
  last_tick_at = now;
}

abbrev pub install : (Assignments → State) → Result Assignments → Method
install build (err f) = fail f
install build (ok asg) = succeed (build asg) (start_events asg (build asg))

module _ (R : Rng) where
  open R use {Rand}

  abbrev pub assigned : List PlayerId → Options → (Assignments → State) → Option Rand → Method
  assigned ids o build none = fail (errf ErrorCode.validation)
  assigned ids o build (some r) = λ e. install build (assign R e.pool ids o r) e

  -- Seed a generator, assign the roles, install the state. The bytes read stay read on an error.
  unfoldable pub begin_game : List PlayerId → Options → (Assignments → State) → Method
  begin_game ids o build e =
      let (r, rest) = new_inner_rand R e.rng in assigned ids o build r (record e { rng = rest })

  unfoldable pub start : String → PlayerId → List Player → Options → Method
  start game_id host players o e =
      (do
        require (is_phase e.state.phase Phase.unset || is_phase e.state.phase Phase.lobby)
            (errf ErrorCode.wrong_phase)
        require (not (ltb (length players) 6 || ltb 12 (length players)))
            (errf ErrorCode.validation)
        require (host === nobody || any (λ (p : Player). p.id === host) players)
            (errf ErrorCode.permission_denied)
        begin_game (map (λ (p : Player). p.id) players) o
            (λ asg. started_state game_id host players o asg e.clock))
        e

  unfoldable pub handle_start_game : PlayerId → Options → Method
  handle_start_game host o e =
      let s = e.state in
      (do
        require (is_phase s.phase Phase.lobby) (errf ErrorCode.wrong_phase)
        require (host === s.host_id) (errf ErrorCode.permission_denied)
        begin_game (map (λ (p : Player). p.id) s.players) o
            (λ asg. restarted_state o asg e.clock s))
        e

unfoldable pub snapshot : Engine → State
snapshot e = e.state

-- `none` is success.
unfoldable pub restore : State → Engine → Engine × Option Failure
restore s e =
    if is_phase s.phase Phase.unset
    then (e, some (errf ErrorCode.validation))
    else (set_state s e, none)
