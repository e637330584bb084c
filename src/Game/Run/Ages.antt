-- ===== src/Game/Run/Ages.antt =====
-- The players through a game: who they are does not change, and the dead stay dead.
use mafia_game_party.Prelude.{
  ℕ, zero, suc, false, some, List, [], ◌∷◌, PlayerId, ◌≡◌, refl, ◌⊎◌, arith, Option-cases, inl, inr,
  length, insert,
}
use mafia_game_party.Prelude.Time.{Time, zero_time, add, seconds}
use mafia_game_party.Game.Types.{NightStep, Phase}
use mafia_game_party.Game.State.{Player, State, PendingGameEnd, kill, find_player}
use mafia_game_party.Game.Event.{EventEnvelope, public_event, vote_tallied}
use mafia_game_party.Game.Rand.{Rng}
use mafia_game_party.Game.Engine.{Engine, set_state}
use mafia_game_party.Game.End.{fire_pending_end}
use mafia_game_party.Game.Night.{
  begin_day, schedule_end, mark_dead, resolve_night, night_victim, enter_night, begin_night_step,
  next_night_step,
}
use mafia_game_party.Game.Night.Successor.{mark_dead-frame}
use mafia_game_party.Game.Vote.{
  Counts, tally_top, end_or_night, apply_elimination, tally, count_votes, top_candidates,
  record_ballot, handle_vote,
}
use mafia_game_party.Game.Lifecycle.{next_speaker}
use mafia_game_party.Game.Tick.{
  intro_loop, tick_intro, tick_day, night_loop, tick_night, tick_phase, tick,
}

-- The same players, of whom some may have died.
unfoldable pub Ages : List Player → List Player → Type 0
Ages [] [] = Unit
Ages [] (q ∷ qs) = ⊥
Ages (p ∷ ps) [] = ⊥
Ages (p ∷ ps) (q ∷ qs) = ((q ≡ p) ⊎ (q ≡ record p { alive = false })) × Ages ps qs

pub Ages-refl : (ps : List Player) → Ages ps ps
unfolding Ages
Ages-refl [] = tt
Ages-refl (p ∷ ps) = (inl refl, Ages-refl ps)

pub Ages-trans : (ps qs rs : List Player) → Ages ps qs → Ages qs rs → Ages ps rs
unfolding Ages
Ages-trans [] [] [] a b = tt
Ages-trans [] [] (r ∷ rs) a b = absurd b
Ages-trans [] (q ∷ qs) rs a b = absurd a
Ages-trans (p ∷ ps) [] rs a b = absurd a
Ages-trans (p ∷ ps) (q ∷ qs) [] a b = absurd b
Ages-trans (p ∷ ps) (q ∷ qs) (r ∷ rs) a b = ground (arith, Ages-trans ps qs rs a.1 b.1)

pub Ages-kill : (i : PlayerId) (ps : List Player) → Ages ps (kill i ps)
unfolding Ages kill
Ages-kill i [] = tt
Ages-kill i (p ∷ ps) = ground (arith, Ages-kill i ps, Ages-refl ps)

pub schedule_end-players : (now : Time) (s : State) → (schedule_end now s).players ≡ s.players
unfolding schedule_end
schedule_end-players now s = ground arith

pub enter_night-players : (now : Time) (s : State) → (enter_night now s).0.players ≡ s.players
unfolding enter_night
enter_night-players now s = refl

pub end_or_night-players :
    (e : Engine) (events : List EventEnvelope)
    → (end_or_night (e, events)).0.state.players ≡ e.state.players
unfolding end_or_night
end_or_night-players e events =
    ground (arith, schedule_end-players e.clock e.state, enter_night-players e.clock e.state)

intro_loop-players :
    (fuel : ℕ) (now : Time) (s : State) → (intro_loop fuel now s).0.players ≡ s.players
unfolding intro_loop
intro_loop-players zero now s = refl
intro_loop-players (suc fuel) now s =
    let per_player = seconds s.settings.intro_seconds_per_player in
    let s' = (next_speaker (add s.intro_speaker_started_at per_player) s).0 in
    let same : s'.players ≡ s.players = unfold next_speaker in refl in
    ground (arith, same, intro_loop-players fuel now s')

tick_day-players : (now prev : Time) (s : State) → (tick_day now prev s).0.players ≡ s.players
unfolding tick_day
tick_day-players now prev s = ground arith

module _ (R : Rng) where
  apply_elimination-Ages :
      (i : PlayerId) (events : List EventEnvelope) (e : Engine)
      → Ages e.state.players (apply_elimination R i events e).0.state.players
  unfolding apply_elimination
  apply_elimination-Ages i events e = elim (Option-cases (find_player i e.state.players)) [
    | inl n ↦ rw (n, apply_elimination) (Ages-refl e.state.players)
    | inr (p, n) ↦
        rw (n, apply_elimination)
          (rw (end_or_night-players (mark_dead R i e).0)
            (rw (mark_dead-frame R i e).0 (Ages-kill i e.state.players)))
  ]

  tally_top-Ages :
      (top : ℕ × List PlayerId) (counts : Counts) (e : Engine)
      → Ages e.state.players (tally_top R top counts e).0.state.players
  unfolding tally_top
  tally_top-Ages (best, []) counts e =
      ground (arith, Ages-refl e.state.players, enter_night-players e.clock e.state)
  tally_top-Ages (best, i ∷ []) counts e = ground (
    arith,
    Ages-refl e.state.players,
    enter_night-players e.clock e.state,
    apply_elimination-Ages i (public_event (vote_tallied counts (some i) false) ∷ []) e,
  )
  tally_top-Ages (best, i ∷ j ∷ rest) counts e =
      ground (arith, Ages-refl e.state.players, enter_night-players e.clock e.state)

  pub handle_vote-Ages :
      (voter target : PlayerId) (e : Engine)
      → Ages e.state.players (handle_vote R voter target e).0.state.players
  unfolding handle_vote record_ballot tally
  handle_vote-Ages voter target e =
      let e' : Engine =
        set_state (record e.state { votes = insert voter target e.state.votes }) e in
      let counts = count_votes e'.state.votes [] in
      ground (
        arith,
        Ages-refl e.state.players,
        tally_top-Ages (top_candidates counts e.state.players) counts e',
      )

  pub resolve_night-Ages : (e : Engine) → Ages e.state.players (resolve_night R e).0.state.players
  unfolding resolve_night begin_day
  resolve_night-Ages e = elim (Option-cases (night_victim e.state)) [
    | inl n ↦
        rw (n, resolve_night)
          (ground (
            arith,
            Ages-refl e.state.players,
            schedule_end-players e.clock (begin_day e.clock e.state),
          ))
    | inr (v, n) ↦ ground (
      arith,
      Ages-refl e.state.players,
      mark_dead-frame R v e,
      Ages-kill v e.state.players,
      schedule_end-players (mark_dead R v e).0.clock
          (begin_day (mark_dead R v e).0.clock (mark_dead R v e).0.state),
    )
  ]

  night_loop-Ages :
      (fuel : ℕ) (now : Time) (e : Engine)
      → Ages e.state.players (night_loop R fuel now e).0.state.players
  unfolding night_loop begin_night_step
  night_loop-Ages zero now e = Ages-refl e.state.players
  night_loop-Ages (suc fuel) now e =
      let s' =
        (begin_night_step (next_night_step e.state.night_step) e.state.night_step_deadline
          e.state).0 in
      ground (
        arith,
        Ages-refl e.state.players,
        night_loop-Ages fuel now (set_state s' e),
        resolve_night-Ages (
            set_state
              (record e.state { night_step = NightStep.unset; night_step_deadline = zero_time }) e),
      )

  tick_phase-Ages :
      (p : Phase) (now prev : Time) (e : Engine)
      → Ages e.state.players (tick_phase R p now prev e).0.state.players
  unfolding tick_phase tick_intro tick_night
  tick_phase-Ages p now prev e = ground (
    arith,
    Ages-refl e.state.players,
    intro_loop-players (suc (length e.state.players)) now e.state,
    tick_day-players now prev e.state,
    night_loop-Ages 4 now e,
  )

  fire_pending_end-players :
      (p : PendingGameEnd) (now : Time) (e : Engine)
      → (fire_pending_end p now e).0.state.players ≡ e.state.players
  unfolding fire_pending_end
  fire_pending_end-players p now e = ground arith

  pub tick-Ages : (now : Time) (e : Engine) → Ages e.state.players (tick R now e).0.state.players
  unfolding tick
  tick-Ages now e =
      let progress =
        tick_phase-Ages e.state.phase now e.state.last_tick_at
          (set_state (record e.state { last_tick_at = now }) e) in
      elim (Option-cases e.state.pending_game_end) [
        | inl n ↦ rw (n, tick) (ground (arith, progress, Ages-refl e.state.players))
        | inr (p, n) ↦
            rw (n, tick)
              (ground
                (arith, progress, Ages-refl e.state.players, fire_pending_end-players p now e))
      ]
