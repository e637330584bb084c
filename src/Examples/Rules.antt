-- ===== src/Examples/Rules.antt =====
-- Witnesses: the theorems about single operations applied to concrete states.
use mafia_game_party.Prelude.{
  ◌≤◌, false, none, some, List, [], ◌∷◌, PlayerId, nobody, id_dec, any, ◌==◌, if◌then◌else◌, ◌≡◌,
  refl, inl, ◌↔◌, arith, pos,
}
use mafia_game_party.Game.Types.{Phase, phase_dec, role_dec, step_dec, NightStep}
use mafia_game_party.Game.State.{find_player}
use mafia_game_party.Game.Error.{ErrorCode, errf}
use mafia_game_party.Game.Event.{submit_vote, force_end_game, public_event, game_paused}
use mafia_game_party.Game.Validation.{ensure_host, ensure_phase, validate_options}
use mafia_game_party.Game.Validation.Accept.{IsValid, validate_options_iff}
use mafia_game_party.Game.Engine.{Engine, ok, err}
use mafia_game_party.Game.Night.{resolve_night}
use mafia_game_party.Game.Night.Outcome.{survivors, IsMorning, resolve_night_lem}
use mafia_game_party.Game.Vote.{count_votes, top_candidates, tally, handle_vote}
use mafia_game_party.Game.Vote.Top.{greatest, holders, top_candidates_lem}
use mafia_game_party.Game.Vote.Outcome.{IsJust, tally_kills_leader}
use mafia_game_party.Game.Lifecycle.{handle_pause_game, can_pause}
use mafia_game_party.Game.Lifecycle.Pause.{resumed, KeepsTime, pause-KeepsTime}
use mafia_game_party.Game.Apply.{apply, handle}
use mafia_game_party.Game.Apply.Atomic.{apply_error_unchanged}
use mafia_game_party.Game.Tick.{tick, intro_loop, tick_intro, night_loop, tick_night}
use mafia_game_party.Game.Tick.Twice.{tick_twice}
use mafia_game_party.Game.Tick.Fuel.{tick_intro_total, tick_night_total}
use mafia_game_party.Game.Run.{act, tick_at, run}
use mafia_game_party.Game.Run.Final.{timeless, end_is_final}
use mafia_game_party.Game.Invariant.Defs.{Base}
use mafia_game_party.Game.Invariant.Players.{ids, Distinct, leads, is_known}
use mafia_game_party.Examples.Distinct.{none_is, all_differ, all_differ_lem}
use mafia_game_party.Examples.Setup.{example_rng, example_options, cast, game_in, engine_with}

cast-Distinct : Distinct (ids cast)
unfolding all_differ none_is id_dec
cast-Distinct = all_differ_lem (ids cast) refl

-- Five ballots, of which three are for "d" and one for nobody.
abbrev ballots : List (PlayerId × PlayerId)
ballots = ("a", "d") ∷ ("b", "d") ∷ ("c", "a") ∷ ("d", nobody) ∷ ("e", "d") ∷ []

abbrev voting : Engine
voting = engine_with (record (game_in Phase.vote) { votes = ballots; vote_round = 1 })

tally_kills_leader_example :
    IsJust example_rng voting cast-Distinct (tally example_rng voting).0.state.players
tally_kills_leader_example = tally_kills_leader example_rng voting cast-Distinct

top_candidates_lem_example :
    let counts = count_votes ballots [] in
    top_candidates counts cast ≡ (
      greatest counts cast,
      (if greatest counts cast == 0 then [] else holders counts (greatest counts cast) cast),
    )
top_candidates_lem_example = top_candidates_lem (count_votes ballots []) cast

-- A night in which the mafia have chosen "d", and the doctor "e".
abbrev hunted : Engine
hunted = engine_with (record (game_in Phase.night) {
  night_step = NightStep.doctor;
  night_step_deadline = 90;
  pending_mafia_target = some "d";
  pending_doctor_target = some "e";
})

hunted-Base : Base hunted.state
unfolding leads is_known find_player id_dec role_dec phase_dec
hunted-Base = record {
  started = refl;
  distinct = cast-Distinct;
  led = inl refl;
  target_known = refl;
  winner_known = refl;
  first_round = λ h. cc;
  second_round = λ h. cc;
}

resolve_night_lem_example :
    ((resolve_night example_rng hunted).0.state.players ≡ survivors (some "d") (some "e") cast)
    × IsMorning 1 (resolve_night example_rng hunted).0.state
resolve_night_lem_example = resolve_night_lem example_rng hunted hunted-Base

tick_night_total_example : night_loop example_rng 9 100 hunted ≡ tick_night example_rng 100 hunted
tick_night_total_example = tick_night_total example_rng 9 100 hunted (omega arith)

tick_twice_example :
    tick example_rng 95 (tick example_rng 95 hunted).0 ≡ ((tick example_rng 95 hunted).0, ok [])
tick_twice_example = tick_twice example_rng 95 hunted (omega arith)

tick_intro_total_example :
    intro_loop 7 95 (game_in Phase.intro) ≡ tick_intro 95 (game_in Phase.intro)
tick_intro_total_example = tick_intro_total 7 95 (game_in Phase.intro) (omega arith)

by_day : Engine
by_day = engine_with (record (game_in Phase.day) { deadline = 5000 })

early_vote : (apply example_rng (submit_vote "a" "d") by_day).1 ≡ err (errf ErrorCode.wrong_phase)
unfolding apply handle handle_vote ensure_phase any phase_dec by_day
early_vote = refl

apply_error_unchanged_example :
    (apply example_rng (submit_vote "a" "d") by_day).0.state ≡ by_day.state
apply_error_unchanged_example =
    apply_error_unchanged example_rng (submit_vote "a" "d") by_day early_vote

paused_ok : (handle_pause_game nobody by_day).1 ≡ ok (public_event (game_paused Phase.day) ∷ [])
unfolding handle_pause_game ensure_host can_pause phase_dec step_dec id_dec by_day
paused_ok = refl

by_day_runs : by_day.state.paused ≡ false
unfolding by_day
by_day_runs = refl

by_day_before : by_day.clock ≤ 700
unfolding by_day
by_day_before = omega arith

pause-KeepsTime_example :
    ((resumed nobody by_day 700).paused ≡ false)
    × ((resumed nobody by_day 700).last_tick_at ≡ 700)
    × ((resumed nobody by_day 700).phase ≡ by_day.state.phase)
    × KeepsTime by_day.state by_day.clock (resumed nobody by_day 700) 700
pause-KeepsTime_example = pause-KeepsTime nobody by_day 700 by_day_runs paused_ok by_day_before

validate_options_iff_example :
    (validate_options example_options (pos 6) ≡ none) ↔ IsValid example_options 6
validate_options_iff_example =
    validate_options_iff example_options 6 (record { below = omega arith; above = omega arith })

end_is_final_example :
    timeless
      (run example_rng
        (act 130 (force_end_game nobody) ∷ tick_at 140 140 ∷ [])
        (engine_with (game_in Phase.end))).state
    ≡ timeless (game_in Phase.end)
end_is_final_example =
    end_is_final example_rng (act 130 (force_end_game nobody) ∷ tick_at 140 140 ∷ [])
      (engine_with (game_in Phase.end)) refl refl
