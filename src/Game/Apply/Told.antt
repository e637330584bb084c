-- ===== src/Game/Apply/Told.antt =====
-- The events of every call are addressed to their audience.
use mafia_game_party.Prelude.{
  not, Option, none, some, List, [], ◌∷◌, map, PlayerId, String, refl, arith,
}
use mafia_game_party.Prelude.Time.{Time}
use mafia_game_party.Game.Types.{Options, Phase, is_phase}
use mafia_game_party.Game.State.{Player, State}
use mafia_game_party.Game.Event.{
  Action, start_game, advance_intro, end_self_intro, submit_mafia_kill, submit_doctor_heal,
  submit_police_check, end_night_early, end_discussion_early, submit_vote, toggle_voice,
  force_end_game, pause_game, resume_game,
}
use mafia_game_party.Game.Error.{ErrorCode, Failure, errf}
use mafia_game_party.Game.Validation.{require}
use mafia_game_party.Game.Rand.{Rng, new_inner_rand}
use mafia_game_party.Game.Role.{Assignments, assign}
use mafia_game_party.Game.Engine.{Engine, Result, ok, err, Method, ◌>>◌}
use mafia_game_party.Game.Night.Told.{resolve_night-Addressed}
use mafia_game_party.Game.NightAction.{
  handle_mafia_kill, handle_doctor_heal, handle_police_check, handle_end_night_early,
}
use mafia_game_party.Game.Vote.{handle_end_discussion_early, handle_vote}
use mafia_game_party.Game.Vote.Told.{record_ballot-Addressed, transition_day_to_vote-Addressed}
use mafia_game_party.Game.Lifecycle.{
  advance_speaker, handle_advance_intro, handle_end_self_intro, handle_toggle_voice,
  handle_force_end, handle_pause_game, handle_resume_game,
}
use mafia_game_party.Game.Start.{
  reveal, cohort, start_events, install, assigned, begin_game, started_state, restarted_state,
  start, handle_start_game,
}
use mafia_game_party.Game.Tick.Told.{next_speaker-Addressed, transition_intro_to_day-Addressed}
use mafia_game_party.Game.Audience.{audience, Addressed, IsAddressed, Addressed-append}
use mafia_game_party.Game.Apply.{handle, apply}

guarded-Addressed :
    (check : Option Failure) (k : Method) (e : Engine)
    → IsAddressed (k e).1
    → IsAddressed ((check >> k) e).1
unfolding IsAddressed
guarded-Addressed none k e h = h
guarded-Addressed (some f) k e h = tt

advance_speaker-Addressed : (now : Time) (s : State) → Addressed (advance_speaker now s).1
unfolding advance_speaker
advance_speaker-Addressed now s =
    ground (arith, next_speaker-Addressed now s, transition_intro_to_day-Addressed now s)

reveals-Addressed : (ps : List Player) → Addressed (map reveal ps)
unfolding Addressed audience reveal
reveals-Addressed [] = tt
reveals-Addressed (p ∷ ps) = (refl, reveals-Addressed ps)

cohort-Addressed : (is : List PlayerId) (rep : PlayerId) → Addressed (cohort is rep)
unfolding Addressed audience
cohort-Addressed [] rep = tt
cohort-Addressed (i ∷ is) rep = (refl, tt)

start_events-Addressed : (asg : Assignments) (s : State) → Addressed (start_events asg s)
unfolding start_events Addressed audience
start_events-Addressed asg s = (
  refl,
  Addressed-append (map reveal s.players) _ (reveals-Addressed s.players) (
      Addressed-append (cohort asg.mafia_ids asg.representative_id) _
        (cohort-Addressed asg.mafia_ids asg.representative_id) (refl, (refl, tt))),
)

install-Addressed :
    (build : Assignments → State) (r : Result Assignments) (e : Engine)
    → IsAddressed (install build r e).1
unfolding IsAddressed
install-Addressed build (err f) e = tt
install-Addressed build (ok asg) e = start_events-Addressed asg (build asg)

module _ (R : Rng) where
  assigned-Addressed :
      (ids : List PlayerId) (o : Options) (build : Assignments → State) (r : Option R.Rand)
      (e : Engine)
      → IsAddressed (assigned R ids o build r e).1
  unfolding IsAddressed
  assigned-Addressed ids o build none e = tt
  assigned-Addressed ids o build (some r) e = install-Addressed build (assign R e.pool ids o r) e

  begin_game-Addressed :
      (ids : List PlayerId) (o : Options) (build : Assignments → State) (e : Engine)
      → IsAddressed (begin_game R ids o build e).1
  unfolding begin_game
  begin_game-Addressed ids o build e =
      let (r, rest) = new_inner_rand R e.rng in
      assigned-Addressed ids o build r (record e { rng = rest })

  pub start-Addressed :
      (game_id : String) (host : PlayerId) (players : List Player) (o : Options) (e : Engine)
      → IsAddressed (start R game_id host players o e).1
  unfolding start IsAddressed
  start-Addressed game_id host players o e =
      let build = λ (asg : Assignments). started_state game_id host players o asg e.clock in
      ground (arith, begin_game-Addressed (map (λ (p : Player). p.id) players) o build e)

  handle-Addressed : (a : Action) (e : Engine) → IsAddressed (handle R a e).1
  unfolding handle IsAddressed Addressed audience
  handle-Addressed (start_game host o) e =
      let s = e.state in
      let build = λ (asg : Assignments). restarted_state o asg e.clock s in
      let told = begin_game-Addressed (map (λ (p : Player). p.id) s.players) o build e in
      unfold handle_start_game in ground (arith, told)
  handle-Addressed (advance_intro host) e =
      let told = advance_speaker-Addressed e.clock e.state in
      unfold handle_advance_intro in ground (arith, told)
  handle-Addressed (end_self_intro i) e =
      let told = advance_speaker-Addressed e.clock e.state in
      unfold handle_end_self_intro in ground (arith, told)
  handle-Addressed (submit_mafia_kill mafia target) e = unfold handle_mafia_kill in ground arith
  handle-Addressed (submit_doctor_heal doctor target) e = unfold handle_doctor_heal in ground arith
  handle-Addressed (submit_police_check police target) e =
      unfold handle_police_check in ground arith
  handle-Addressed (end_night_early host) e =
      unfold handle_end_night_early in ground (arith, resolve_night-Addressed R e)
  handle-Addressed (end_discussion_early host) e =
      unfold handle_end_discussion_early in
      ground (arith, transition_day_to_vote-Addressed e.clock e.state)
  handle-Addressed (submit_vote voter target) e =
      unfold handle_vote in ground (arith, record_ballot-Addressed R voter target e)
  handle-Addressed (toggle_voice host on) e = unfold handle_toggle_voice in ground arith
  handle-Addressed (force_end_game host) e = unfold handle_force_end in ground arith
  handle-Addressed (pause_game host) e = unfold handle_pause_game in ground arith
  handle-Addressed (resume_game host) e = unfold handle_resume_game in ground arith

  pub apply-Addressed : (a : Action) (e : Engine) → IsAddressed (apply R a e).1
  unfolding apply
  apply-Addressed a e =
      guarded-Addressed
        (require (not (is_phase e.state.phase Phase.end)) (errf ErrorCode.wrong_phase)) (handle R a)
        e (handle-Addressed a e)
