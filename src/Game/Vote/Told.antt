-- ===== src/Game/Vote/Told.antt =====
-- The events of a vote are addressed to their audience.
use mafia_game_party.Prelude.{
  ◌==◌, Bool, true, false, Option, none, some, List, [], ◌∷◌, ◌++◌, PlayerId, if◌then◌else◌, refl,
  arith, Option-cases, inl, inr, insert,
}
use mafia_game_party.Prelude.Time.{Time}
use mafia_game_party.Game.State.{Player, State, find_player}
use mafia_game_party.Game.Event.{EventEnvelope, public_event, vote_tallied, eliminated}
use mafia_game_party.Game.Rand.{Rng}
use mafia_game_party.Game.Engine.{Engine, set_state}
use mafia_game_party.Game.End.{evaluate_end}
use mafia_game_party.Game.Night.{mark_dead}
use mafia_game_party.Game.Night.Told.{mark_dead-Addressed, enter_night-Addressed}
use mafia_game_party.Game.Audience.{audience, Addressed, IsAddressed, Addressed-append}
use mafia_game_party.Game.Vote.{
  transition_day_to_vote, Counts, night_after, end_or_night, begin_recount, no_elimination,
  eliminate, apply_elimination, decide_top, tally_top, tally, count_votes, top_candidates,
  record_ballot,
}

pub transition_day_to_vote-Addressed :
    (now : Time) (s : State) → Addressed (transition_day_to_vote now s).1
unfolding transition_day_to_vote Addressed audience
transition_day_to_vote-Addressed now s = (refl, tt)

pub either-Addressed :
    (b : Bool) (x y : Engine × List EventEnvelope)
    → Addressed x.1
    → Addressed y.1
    → Addressed (if b then x else y).1
either-Addressed true x y p q = p
either-Addressed false x y p q = q

night_after-Addressed :
    (x : Engine × List EventEnvelope) → Addressed x.1 → Addressed (night_after x).1
night_after-Addressed (e, events) h =
    Addressed-append events _ h (enter_night-Addressed e.clock e.state)

end_or_night-Addressed :
    (x : Engine × List EventEnvelope) → Addressed x.1 → Addressed (end_or_night x).1
unfolding end_or_night
end_or_night-Addressed (e, events) h = elim (Option-cases (evaluate_end e.state)) [
  | inl n ↦ rw (n, end_or_night) (night_after-Addressed (e, events) h)
  | inr (d, n) ↦ rw (n, end_or_night) h
]

begin_recount-Addressed :
    (tied : List PlayerId) (counts : Counts) (e : Engine)
    → Addressed (begin_recount tied counts e).1
unfolding begin_recount Addressed audience
begin_recount-Addressed tied counts e = (refl, (refl, tt))

no_elimination-Addressed : (counts : Counts) (e : Engine) → Addressed (no_elimination counts e).1
unfolding no_elimination Addressed audience
no_elimination-Addressed counts e =
    night_after-Addressed (e, public_event (vote_tallied counts none false) ∷ []) (refl, tt)

module _ (R : Rng) where
  eliminate-Addressed :
      (i : PlayerId) (p : Option Player) (events : List EventEnvelope) (e : Engine)
      → Addressed events
      → Addressed (eliminate R i p events e).1
  unfolding eliminate Addressed audience
  eliminate-Addressed i none events e h = h
  eliminate-Addressed i (some p) events e h =
      let told = public_event (eliminated i p.role) ∷ (mark_dead R i e).1 in
      end_or_night-Addressed ((mark_dead R i e).0, events ++ told)
        (Addressed-append events told h (refl, mark_dead-Addressed R i e))

  elimination-Addressed :
      (i : PlayerId) (counts : Counts) (e : Engine)
      → Addressed
          (apply_elimination R i (public_event (vote_tallied counts (some i) false) ∷ []) e).1
  unfolding apply_elimination Addressed audience
  elimination-Addressed i counts e =
      eliminate-Addressed i (find_player i e.state.players) _ e (refl, tt)

  decide_top-Addressed :
      (first_round : Bool) (top : List PlayerId) (counts : Counts) (e : Engine)
      → Addressed (decide_top R first_round top counts e).1
  decide_top-Addressed b [] counts e =
      either-Addressed b _ _ (begin_recount-Addressed [] counts e)
        (no_elimination-Addressed counts e)
  decide_top-Addressed b (i ∷ []) counts e = elimination-Addressed i counts e
  decide_top-Addressed b (i ∷ j ∷ rest) counts e =
      either-Addressed b _ _ (begin_recount-Addressed (i ∷ j ∷ rest) counts e)
        (no_elimination-Addressed counts e)

  tally-Addressed : (e : Engine) → Addressed (tally R e).1
  unfolding tally tally_top
  tally-Addressed e =
      let counts = count_votes e.state.votes [] in
      let (best, top) = top_candidates counts e.state.players in
      either-Addressed (best == 0) _ _ (no_elimination-Addressed counts e)
        (decide_top-Addressed (e.state.vote_round == 1) top counts e)

  pub record_ballot-Addressed :
      (voter target : PlayerId) (e : Engine) → IsAddressed (record_ballot R voter target e).1
  unfolding record_ballot IsAddressed Addressed
  record_ballot-Addressed voter target e =
      let s = record e.state { votes = insert voter target e.state.votes } in
      ground (arith, tally-Addressed (set_state s e))
