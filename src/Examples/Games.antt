-- ===== src/Examples/Games.antt =====
-- Witnesses: the theorems of the game applied to concrete games.
use mafia_game_party.Prelude.{
  ◌*ℤ◌, ◌≤◌, ◌-ℤ◌, ◌+ℤ◌, wrap_64, any, insert, lookup_or, ◌<◌, Bool, true, false, none, List, [],
  ◌∷◌, nobody, id_dec, ◌≡◌, refl, ◌≢◌, ◌⊎◌, arith, pos, IsInt64,
}
use mafia_game_party.Prelude.Time.{seconds}
use mafia_game_party.Game.Types.{Phase, phase_dec, role_dec}
use mafia_game_party.Game.Rand.{new_inner_rand, extract_seed_64}
use mafia_game_party.Game.Start
use mafia_game_party.Game.Role
use mafia_game_party.Game.Start.{start, begin_game, started_state, start_events}
use mafia_game_party.Game.Role.{
  assign, after_validation, deal, put_all, with_keywords, pick_keywords, pick_representative,
  keyword_of,
}
use mafia_game_party.Game.Keyword.{pick, pool_for}
use mafia_game_party.Game.Validation.{
  validate_options, options_errors, player_count_errors, max_players_errors, mafia_count_errors,
  majority_errors, plain_citizen_errors, seconds_errors,
}
use mafia_game_party.Game.Engine.{Engine, Result, ok, err}
use mafia_game_party.Game.Event.{EventEnvelope}
use mafia_game_party.Game.State.{live_mafia_count, live_citizen_side_count}
use mafia_game_party.Game.Invariant.Players.{ids, Distinct}
use mathlib.Core.Option
use mafia_game_party.Game.Error.{ErrorCode, errf}
use mafia_game_party.Game.Event.{advance_intro}
use mafia_game_party.Game.Validation.{ensure_host, ensure_phase}
use mafia_game_party.Game.Lifecycle.{handle_advance_intro, advance_speaker, next_speaker}
use mafia_game_party.Game.Apply.{handle, apply}
use mafia_game_party.Game.Tick.{tick}
use mafia_game_party.Game.Run.{Call, act, step, run}
use mafia_game_party.Game.Run.Safe.{undecided_game_open, mafia_stay_led, tick_never_fails}
use mafia_game_party.Game.Run.Ages.{Ages}
use mafia_game_party.Game.Run.Mortal.{players_only_die}
use mafia_game_party.Game.Run.Phases.{may_follow}
use mafia_game_party.Game.Run.Diagram.{phase_follows}
use mafia_game_party.Game.Run.Live.{timed_phase_ends, introducing, latest_end}
use mafia_game_party.Game.Start.Fresh.{start-Inv}
use mafia_game_party.Game.Invariant.Defs.{Inv}
use mafia_game_party.Game.Invariant.Players.{leads}
use mafia_game_party.Examples.Distinct.{none_is, all_differ, all_differ_lem}
use mafia_game_party.Examples.Setup.{example_rng, fresh_engine, six_players, example_options}

six-Distinct : Distinct (ids six_players)
unfolding all_differ none_is id_dec
six-Distinct = all_differ_lem (ids six_players) refl

one_mafia : IsInt64 (pos 1)
one_mafia = record { below = omega arith; above = omega arith }

abbrev begun : Engine × Result (List EventEnvelope)
begun = start example_rng "g" nobody six_players example_options fresh_engine

is_ok : {A : Type 0} → Result A → Bool
is_ok (ok a) = true
is_ok (err f) = false

six_start : is_ok begun.1 ≡ true
unfolding is_ok start begin_game started_state start_events Start.with_roles new_inner_rand
    extract_seed_64 assign after_validation deal put_all Role.with_roles with_keywords pick_keywords
    pick_representative keyword_of pick pool_for validate_options options_errors player_count_errors
    max_players_errors mafia_count_errors majority_errors plain_citizen_errors seconds_errors
    phase_dec role_dec id_dec ◌-ℤ◌ ◌+ℤ◌ wrap_64 any insert lookup_or Option.bind
six_start = refl

events_of : {A : Type 0} → Result (List A) → List A
events_of (ok a) = a
events_of (err f) = []

is_ok_lem : {A : Type 0} (r : Result (List A)) → is_ok r ≡ true → r ≡ ok (events_of r)
unfolding is_ok events_of
is_ok_lem (ok a) h = refl
is_ok_lem (err f) h = cc

started : begun.1 ≡ ok (events_of begun.1)
started = is_ok_lem begun.1 six_start

-- The host passes the turn to the second speaker.
abbrev one_call : List Call
one_call = act 130 (advance_intro nobody) ∷ []

abbrev advanced : Engine
advanced = run example_rng one_call begun.0

advanced_open : (advanced.state.pending_game_end ≡ none) × (advanced.state.phase ≡ Phase.intro)
unfolding run step apply handle handle_advance_intro advance_speaker next_speaker ensure_host
    ensure_phase start begin_game started_state start_events Start.with_roles new_inner_rand
    extract_seed_64 assign after_validation deal put_all Role.with_roles with_keywords pick_keywords
    pick_representative keyword_of pick pool_for validate_options options_errors player_count_errors
    max_players_errors mafia_count_errors majority_errors plain_citizen_errors seconds_errors
    phase_dec role_dec id_dec ◌-ℤ◌ ◌+ℤ◌ wrap_64 any insert lookup_or Option.bind
advanced_open = (refl, refl)

not_ended : {p : Phase} → p ≡ Phase.intro → p ≢ Phase.end
not_ended h = λ e. cc

undecided_game_open_example :
    (0 < live_mafia_count advanced.state.players)
    × (live_mafia_count advanced.state.players < live_citizen_side_count advanced.state.players)
undecided_game_open_example =
    undecided_game_open example_rng fresh_engine "g" nobody six_players example_options six-Distinct
      one_mafia started one_call advanced_open.0 (not_ended advanced_open.1)

mafia_stay_led_example :
    (leads advanced.state.mafia_representative_id advanced.state.players ≡ true)
    ⊎ (live_mafia_count advanced.state.players ≡ 0)
mafia_stay_led_example =
    mafia_stay_led example_rng fresh_engine "g" nobody six_players example_options six-Distinct
      one_mafia started one_call

tick_never_fails_example : (tick example_rng 150 advanced).1 ≢ err (errf ErrorCode.validation)
tick_never_fails_example =
    tick_never_fails example_rng fresh_engine "g" nobody six_players example_options six-Distinct
      one_mafia started one_call 150 (errf ErrorCode.validation)

begun-Inv : Inv begun.0.state
begun-Inv =
    start-Inv example_rng fresh_engine "g" nobody six_players example_options six-Distinct one_mafia
      started

players_only_die_example : Ages begun.0.state.players advanced.state.players
players_only_die_example = players_only_die example_rng one_call begun.0 begun-Inv

phase_follows_example :
    may_follow begun.0.state.phase
      (step example_rng (act 130 (advance_intro nobody)) begun.0).0.state.phase
    ≡ true
phase_follows_example = phase_follows example_rng (act 130 (advance_intro nobody)) begun.0 begun-Inv

-- The first speaker has begun; six speakers and one more have 20 seconds each.
begun_intro :
    (begun.0.state.paused ≡ false)
    × (begun.0.state.phase ≡ Phase.intro)
    × (begun.0.state.last_tick_at < 140_000_000_100)
    × (latest_end begun.0.state ≤ 140_000_000_100)
unfolding latest_end seconds ◌*ℤ◌ start begin_game started_state start_events Start.with_roles
    new_inner_rand extract_seed_64 assign after_validation deal put_all Role.with_roles
    with_keywords pick_keywords pick_representative keyword_of pick pool_for validate_options
    options_errors player_count_errors max_players_errors mafia_count_errors majority_errors
    plain_citizen_errors seconds_errors phase_dec role_dec id_dec ◌-ℤ◌ ◌+ℤ◌ wrap_64 any insert
    lookup_or Option.bind
begun_intro = (refl, refl, omega arith, omega arith)

timed_phase_ends_example :
    (tick example_rng 140_000_000_100 begun.0).0.state.phase ≢ begun.0.state.phase
timed_phase_ends_example =
    timed_phase_ends example_rng 140_000_000_100 begun.0 begun-Inv begun_intro.0
      (introducing begun_intro.1) begun_intro.2 begun_intro.3
