-- ===== src/Game/Vote.antt =====
-- internal/game/handlers_day_vote.go and tally.go: ballots, their count, and what follows from it.
pub mod Count
pub mod Top
pub mod Outcome
pub mod Told
use mafia_game_party.Prelude.{
  ℕ, suc, Bool, true, false, Option, none, some, List, [], ◌∷◌, ◌++◌, PlayerId, nobody, ◌===◌,
  if◌then◌else◌, any, length, ltb, leb, ◌==◌, lookup_or, insert,
}
use mafia_game_party.Prelude.Time.{Time, zero_time}
use mafia_game_party.Game.Types.{Role, Phase, is_phase}
use mafia_game_party.Game.State.{Player, State, find_player, kill, live_count}
use mafia_game_party.Game.Event.{
  EventEnvelope, public_event, phase_changed, vote_tallied, eliminated,
}
use mafia_game_party.Game.Error.{ErrorCode, Failure, errf}
use mafia_game_party.Game.Validation.{require, ensure_host, ensure_phase, ensure_alive}
use mafia_game_party.Game.Rand.{Rng}
use mafia_game_party.Game.Engine.{Engine, Result, ok, err, Method, set_state, fail, succeed, ◌>>◌}
use mafia_game_party.Game.End.{evaluate_end}
use mafia_game_party.Game.Night.{enter_night, mark_dead, schedule_end}

unfoldable pub transition_day_to_vote : Time → State → State × List EventEnvelope
transition_day_to_vote now s = (
  record s {
    phase = Phase.vote;
    deadline = zero_time;
    votes = [];
    vote_round = 1;
    vote_candidates = [];
    last_tick_at = now;
  },
  public_event (phase_changed Phase.vote s.day zero_time) ∷ [],
)

abbrev pub finish_with : State × List EventEnvelope → Method
finish_with (s, events) = succeed s events

unfoldable pub handle_end_discussion_early : PlayerId → Method
unfolding transition_day_to_vote
handle_end_discussion_early host e =
    (do
      ensure_phase e.state (Phase.day ∷ [])
      ensure_host e.state host
      finish_with (transition_day_to_vote e.clock e.state))
      e

abbrev pub Counts : Type 0
Counts = List (PlayerId × ℕ)

-- `counts[t]++` for each vote that is no abstention
unfoldable pub count_votes : List (PlayerId × PlayerId) → List (PlayerId × ℕ) → List (PlayerId × ℕ)
count_votes [] counts = counts
count_votes ((voter, target) ∷ votes) counts =
    count_votes votes
      (if target === nobody then counts else insert target (suc (lookup_or 0 target counts)) counts)

-- One round of the loop over the players: the largest count so far, and who has it.
unfoldable pub top_step : ℕ → PlayerId → ℕ × List PlayerId → ℕ × List PlayerId
top_step c i (best, top) =
    if c == 0
    then (best, top)
    else if ltb best c
    then (c, i ∷ [])
    else if c == best
    then (best, top ++ i ∷ [])
    else (best, top)

unfoldable pub top_loop : List (PlayerId × ℕ) → List Player → ℕ × List PlayerId → ℕ × List PlayerId
unfolding top_step
top_loop counts [] acc = acc
top_loop counts (p ∷ ps) acc = top_loop counts ps (top_step (lookup_or 0 p.id counts) p.id acc)

-- `maxCount` and `topCandidates`
unfoldable pub top_candidates : List (PlayerId × ℕ) → List Player → ℕ × List PlayerId
unfolding top_loop
top_candidates counts players = top_loop counts players (0, [])

abbrev night_after : Engine × List EventEnvelope → Engine × List EventEnvelope
night_after (e, events) =
    let (s, more) = enter_night e.clock e.state in (set_state s e, events ++ more)

-- the end of `applyElimination`: a decided game waits for its end, any other goes into the night
unfoldable pub end_or_night : Engine × List EventEnvelope → Engine × List EventEnvelope
end_or_night (e, events) = elim (evaluate_end e.state) [
  | none ↦ night_after (e, events)
  | some decided ↦ (set_state (schedule_end e.clock e.state) e, events)
]

begin_recount : List PlayerId → Counts → Engine → Engine × List EventEnvelope
begin_recount tied counts e = (
  set_state
      (record e.state { phase = Phase.recount; vote_round = 2; vote_candidates = tied; votes = [] })
      e,
  public_event (vote_tallied counts none true)
      ∷ public_event (phase_changed Phase.recount e.state.day zero_time)
      ∷ [],
)

no_elimination : Counts → Engine → Engine × List EventEnvelope
no_elimination counts e = night_after (e, public_event (vote_tallied counts none false) ∷ [])

module _ (R : Rng) where
  eliminate : PlayerId → Option Player → List EventEnvelope → Engine → Engine × List EventEnvelope
  eliminate i none events e = (e, events)
  eliminate i (some p) events e =
      let (e', reassigned) = mark_dead R i e in
      end_or_night (e', events ++ public_event (eliminated i p.role) ∷ reassigned)

  -- `events` are those that stand before; `p.Role` is read after `p.Alive = false`, which leaves it.
  unfoldable pub apply_elimination :
      PlayerId → List EventEnvelope → Engine → Engine × List EventEnvelope
  unfolding eliminate
  apply_elimination i events e = eliminate i (find_player i e.state.players) events e

  abbrev decide_top : Bool → List PlayerId → Counts → Engine → Engine × List EventEnvelope
  decide_top first_round [] counts e =
      if first_round then begin_recount [] counts e else no_elimination counts e
  decide_top first_round (i ∷ []) counts e =
      apply_elimination i (public_event (vote_tallied counts (some i) false) ∷ []) e
  decide_top first_round (i ∷ j ∷ rest) counts e =
      if first_round then begin_recount (i ∷ j ∷ rest) counts e else no_elimination counts e

  -- from the counts on
  unfoldable pub tally_top : ℕ × List PlayerId → Counts → Engine → Engine × List EventEnvelope
  unfolding begin_recount no_elimination
  tally_top (best, top) counts e =
      if best == 0
      then no_elimination counts e
      else decide_top (e.state.vote_round == 1) top counts e

  -- `tally` has an error in its Go signature and returns none.
  unfoldable pub tally : Engine → Engine × List EventEnvelope
  tally e =
      let counts = count_votes e.state.votes [] in
      tally_top (top_candidates counts e.state.players) counts e

  ballot_check : State → PlayerId → PlayerId → Option Failure
  ballot_check s voter target =
      if target === nobody
      then ensure_alive s (voter ∷ [])
      else ensure_alive s (voter ∷ target ∷ [])

  candidate_check : State → PlayerId → Option Failure
  candidate_check s target =
      if target === nobody
      then none
      else if is_phase s.phase Phase.recount
      then require (any (λ c. c === target) s.vote_candidates) (errf ErrorCode.invalid_target)
      else none

  abbrev answer : Engine × List EventEnvelope → Engine × Result (List EventEnvelope)
  answer (e, events) = (e, ok events)

  -- The ballot is in; the vote is counted once all living players have voted.
  unfoldable pub record_ballot : PlayerId → PlayerId → Method
  record_ballot voter target e =
      let s = record e.state { votes = insert voter target e.state.votes } in
      if leb (live_count s.players) (length s.votes)
      then answer (tally (set_state s e))
      else (set_state s e, ok [])

  unfoldable pub handle_vote : PlayerId → PlayerId → Method
  unfolding ballot_check candidate_check
  handle_vote voter target e =
      (do
        ensure_phase e.state (Phase.vote ∷ Phase.recount ∷ [])
        ballot_check e.state voter target
        candidate_check e.state target
        record_ballot voter target)
        e
