-- ===== src/Game/Run/Phases.antt =====
-- The phases of a game: which may follow which.
use mafia_game_party.Prelude.{
  ℕ, zero, suc, Bool, true, false, some, List, [], ◌∷◌, ◌++◌, PlayerId, ◌≡◌, refl, ◌⊎◌, arith,
  if◌then◌else◌, inl, inr, Option-cases, length, insert,
}
use mafia_game_party.Prelude.Time.{Time, zero_time, add, seconds}
use mafia_game_party.Game.Types.{Phase, is_phase, NightStep}
use mafia_game_party.Game.State.{State, PendingGameEnd, find_player}
use mafia_game_party.Game.Rand.{Rng}
use mafia_game_party.Game.Validation.{ensure_phase}
use mafia_game_party.Game.Engine.{Engine, set_state}
use mafia_game_party.Game.Event.{EventEnvelope, public_event, vote_tallied, eliminated}
use mafia_game_party.Game.End.{fire_pending_end}
use mafia_game_party.Game.Night.{
  begin_day, schedule_end, mark_dead, resolve_night, night_victim, enter_night, begin_night_step,
  next_night_step,
}
use mafia_game_party.Game.Night.Successor.{mark_dead-frame}
use mafia_game_party.Game.Vote.{
  Counts, tally_top, end_or_night, apply_elimination, tally, count_votes, top_candidates,
  record_ballot, handle_vote,
}
use mafia_game_party.Game.Lifecycle.{next_speaker}
use mafia_game_party.Game.Tick.{
  intro_loop, tick_intro, tick_day, night_loop, tick_night, tick_phase, tick,
}

abbrev arrow : Phase → Phase → Bool
arrow Phase.intro Phase.day = true
arrow Phase.day Phase.vote = true
arrow Phase.vote Phase.recount = true
arrow Phase.vote Phase.night = true
arrow Phase.recount Phase.night = true
arrow Phase.night Phase.day = true
arrow _ Phase.end = true
arrow _ _ = false

-- One call may lead from the first phase to the second, or stay.
unfoldable pub may_follow : Phase → Phase → Bool
may_follow p q = if is_phase p q then true else arrow p q

pub may_follow_refl : (p : Phase) → may_follow p p ≡ true
unfolding may_follow
may_follow_refl p = ground arith

schedule_end-phase : (now : Time) (s : State) → (schedule_end now s).phase ≡ s.phase
unfolding schedule_end
schedule_end-phase now s = ground arith

enter_night-phase : (now : Time) (s : State) → (enter_night now s).0.phase ≡ Phase.night
unfolding enter_night
enter_night-phase now s = refl

end_or_night-phase :
    (e : Engine) (events : List EventEnvelope)
    → ((end_or_night (e, events)).0.state.phase ≡ e.state.phase)
      ⊎ ((end_or_night (e, events)).0.state.phase ≡ Phase.night)
unfolding end_or_night
end_or_night-phase e events =
    ground (arith, schedule_end-phase e.clock e.state, enter_night-phase e.clock e.state)

intro_loop-phase :
    (fuel : ℕ) (now : Time) (s : State)
    → ((intro_loop fuel now s).0.phase ≡ s.phase) ⊎ ((intro_loop fuel now s).0.phase ≡ Phase.day)
unfolding intro_loop
intro_loop-phase zero now s = inl refl
intro_loop-phase (suc fuel) now s =
    let per_player = seconds s.settings.intro_seconds_per_player in
    let s' = (next_speaker (add s.intro_speaker_started_at per_player) s).0 in
    let same : s'.phase ≡ s.phase = unfold next_speaker in refl in
    ground (arith, same, intro_loop-phase fuel now s')

tick_day-phase :
    (now prev : Time) (s : State)
    → ((tick_day now prev s).0.phase ≡ s.phase) ⊎ ((tick_day now prev s).0.phase ≡ Phase.vote)
unfolding tick_day
tick_day-phase now prev s = ground arith

-- Where an elimination or the end of a vote may lead.
abbrev AfterVote : Engine → Engine → Type 0
AfterVote e e' =
    (e'.state.phase ≡ e.state.phase)
    ⊎ (e'.state.phase ≡ Phase.night)
    ⊎ ((e.state.vote_round ≡ 1) × (e'.state.phase ≡ Phase.recount))

module _ (R : Rng) where
  mark_dead-phase : (i : PlayerId) (e : Engine) → (mark_dead R i e).0.state.phase ≡ e.state.phase
  mark_dead-phase i e = rw (mark_dead-frame R i e).0 refl

  apply_elimination-phase :
      (i : PlayerId) (events : List EventEnvelope) (e : Engine)
      → ((apply_elimination R i events e).0.state.phase ≡ e.state.phase)
        ⊎ ((apply_elimination R i events e).0.state.phase ≡ Phase.night)
  unfolding apply_elimination
  apply_elimination-phase i events e = elim (Option-cases (find_player i e.state.players)) [
    | inl n ↦ rw (n, apply_elimination) (inl refl)
    | inr (p, n) ↦
        rw (n, apply_elimination)
          (rw (mark_dead-phase i e) at (
            end_or_night-phase (mark_dead R i e).0
              (events ++ public_event (eliminated i p.role) ∷ (mark_dead R i e).1)))
  ]

  tally_top-phase :
      (top : ℕ × List PlayerId) (counts : Counts) (e : Engine)
      → AfterVote e (tally_top R top counts e).0
  unfolding tally_top
  tally_top-phase (best, []) counts e = ground (arith, enter_night-phase e.clock e.state)
  tally_top-phase (best, i ∷ []) counts e = ground (
    arith,
    enter_night-phase e.clock e.state,
    apply_elimination-phase i (public_event (vote_tallied counts (some i) false) ∷ []) e,
  )
  tally_top-phase (best, i ∷ j ∷ rest) counts e = ground (arith, enter_night-phase e.clock e.state)

  pub handle_vote-phase :
      (voter target : PlayerId) (e : Engine)
      → may_follow e.state.phase (handle_vote R voter target e).0.state.phase ≡ true
  unfolding handle_vote record_ballot tally ensure_phase may_follow
  handle_vote-phase voter target e =
      let e' : Engine =
        set_state (record e.state { votes = insert voter target e.state.votes }) e in
      let counts = count_votes e'.state.votes [] in
      ground (arith, tally_top-phase (top_candidates counts e.state.players) counts e')

  pub resolve_night-phase :
      (e : Engine)
      → ((resolve_night R e).0.state.phase ≡ e.state.phase)
        ⊎ ((resolve_night R e).0.state.phase ≡ Phase.day)
  unfolding resolve_night begin_day
  resolve_night-phase e = elim (Option-cases (night_victim e.state)) [
    | inl n ↦ rw (n, resolve_night) (inr (schedule_end-phase e.clock (begin_day e.clock e.state)))
    | inr (v, n) ↦ ground (
      arith,
      schedule_end-phase (mark_dead R v e).0.clock
          (begin_day (mark_dead R v e).0.clock (mark_dead R v e).0.state),
    )
  ]

  night_loop-phase :
      (fuel : ℕ) (now : Time) (e : Engine)
      → ((night_loop R fuel now e).0.state.phase ≡ e.state.phase)
        ⊎ ((night_loop R fuel now e).0.state.phase ≡ Phase.day)
  unfolding night_loop begin_night_step
  night_loop-phase zero now e = inl refl
  night_loop-phase (suc fuel) now e =
      let s' =
        (begin_night_step (next_night_step e.state.night_step) e.state.night_step_deadline
          e.state).0 in
      ground (
        arith,
        night_loop-phase fuel now (set_state s' e),
        resolve_night-phase (
            set_state
              (record e.state { night_step = NightStep.unset; night_step_deadline = zero_time }) e),
      )

  tick_phase-phase :
      (now prev : Time) (e : Engine)
      → may_follow e.state.phase (tick_phase R e.state.phase now prev e).0.state.phase ≡ true
  unfolding tick_phase tick_intro tick_night may_follow
  tick_phase-phase now prev e = ground (
    arith,
    intro_loop-phase (suc (length e.state.players)) now e.state,
    tick_day-phase now prev e.state,
    night_loop-phase 4 now e,
  )

  fire_pending_end-phase :
      (p : PendingGameEnd) (now : Time) (e : Engine)
      → ((fire_pending_end p now e).0.state.phase ≡ e.state.phase)
        ⊎ ((fire_pending_end p now e).0.state.phase ≡ Phase.end)
  unfolding fire_pending_end
  fire_pending_end-phase p now e = ground arith

  pub tick-phase :
      (now : Time) (e : Engine) → may_follow e.state.phase (tick R now e).0.state.phase ≡ true
  unfolding tick may_follow
  tick-phase now e =
      let progress =
        tick_phase-phase now e.state.last_tick_at
          (set_state (record e.state { last_tick_at = now }) e) in
      elim (Option-cases e.state.pending_game_end) [
        | inl n ↦ rw (n, tick) (ground (arith, progress))
        | inr (p, n) ↦ rw (n, tick) (ground (arith, progress, fire_pending_end-phase p now e))
      ]
