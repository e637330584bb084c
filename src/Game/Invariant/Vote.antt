-- ===== src/Game/Invariant/Vote.antt =====
-- The vote keeps the invariant (handlers_day_vote.go, tally.go).
use mafia_game_party.Prelude.{
  ℕ, false, none, some, List, [], ◌∷◌, PlayerId, ◌≡◌, ◌≢◌, arith, Option-cases, inl, inr, insert,
  ◌⊎◌,
}
use mafia_game_party.Game.Types.{Phase}
use mafia_game_party.Game.State.{State, find_player}
use mafia_game_party.Game.Event.{EventEnvelope, public_event, vote_tallied}
use mafia_game_party.Game.Validation.{ensure_phase}
use mafia_game_party.Game.Rand.{Rng}
use mafia_game_party.Game.Engine.{Engine, set_state}
use mafia_game_party.Game.End.{evaluate_end}
use mafia_game_party.Game.Night.{mark_dead}
use mafia_game_party.Game.Night.Successor.{mark_dead-frame}
use mafia_game_party.Game.Vote.{
  Counts, tally_top, end_or_night, apply_elimination, tally, count_votes, top_candidates,
  record_ballot, handle_vote, handle_end_discussion_early,
}
use mafia_game_party.Game.Invariant.Defs.{Base, Inv}
use mafia_game_party.Game.Invariant.Night.{schedule_end-Inv, enter_night-Inv, mark_dead-Base}

open_of_evaluate_end : (s : State) → Base s → evaluate_end s ≡ none → Inv s
unfolding evaluate_end
open_of_evaluate_end s b h = ground arith

end_or_night-Inv :
    (e : Engine) (events : List EventEnvelope)
    → Base e.state
    → e.state.phase ≢ Phase.end
    → Inv (end_or_night (e, events)).0.state
unfolding end_or_night
end_or_night-Inv e events b h = ground (
  arith,
  schedule_end-Inv e.clock e.state b,
  open_of_evaluate_end e.state b,
  enter_night-Inv e.clock e.state,
)

module _ (R : Rng) where
  apply_elimination-Inv :
      (i : PlayerId) (events : List EventEnvelope) (e : Engine)
      → Inv e.state
      → e.state.phase ≢ Phase.end
      → Inv (apply_elimination R i events e).0.state
  unfolding apply_elimination
  apply_elimination-Inv i events e v h = elim (Option-cases (find_player i e.state.players)) [
    | inl n ↦ rw (n, apply_elimination) v
    | inr (p, n) ↦
        rw (n, apply_elimination)
          (end_or_night-Inv (mark_dead R i e).0 _ (mark_dead-Base R i e v.base)
            (rw (mark_dead-frame R i e).0 h))
  ]

  tally_top-Inv :
      (top : ℕ × List PlayerId) (counts : Counts) (e : Engine)
      → Inv e.state
      → (e.state.phase ≡ Phase.vote) ⊎ (e.state.phase ≡ Phase.recount)
      → Inv (tally_top R top counts e).0.state
  unfolding tally_top
  tally_top-Inv (best, []) counts e v h = ground (arith, enter_night-Inv e.clock e.state v)
  tally_top-Inv (best, i ∷ []) counts e v h = ground (
    arith,
    enter_night-Inv e.clock e.state v,
    apply_elimination-Inv i (public_event (vote_tallied counts (some i) false) ∷ []) e v,
  )
  tally_top-Inv (best, i ∷ j ∷ rest) counts e v h =
      ground (arith, enter_night-Inv e.clock e.state v)

  record_ballot-Inv :
      (voter target : PlayerId) (e : Engine)
      → Inv e.state
      → (e.state.phase ≡ Phase.vote) ⊎ (e.state.phase ≡ Phase.recount)
      → Inv (record_ballot R voter target e).0.state
  unfolding record_ballot tally
  record_ballot-Inv voter target e v h =
      let e' : Engine =
        set_state (record e.state { votes = insert voter target e.state.votes }) e in
      let counts = count_votes e'.state.votes [] in
      ground (
        arith,
        tally_top-Inv (top_candidates counts e.state.players) counts e'
            (record { base = ground arith; undecided = v.undecided }) h,
      )

  -- A ballot, counted or not, keeps the invariant.
  pub handle_vote-Inv :
      (voter target : PlayerId) (e : Engine)
      → Inv e.state
      → Inv (handle_vote R voter target e).0.state
  unfolding handle_vote ensure_phase
  handle_vote-Inv voter target e v = ground (arith, record_ballot-Inv voter target e v)

pub end_discussion-Inv :
    (host : PlayerId) (e : Engine) → Inv e.state → Inv (handle_end_discussion_early host e).0.state
unfolding handle_end_discussion_early ensure_phase
end_discussion-Inv host e v = ground arith
