-- ===== src/Game/Night/Outcome.antt =====
-- The end of a night (resolve_night.go): who dies, and the day that follows.
use mafia_game_party.Prelude.{
  ℕ, suc, false, Option, none, some, List, PlayerId, ◌===◌, ◌≡◌, refl, arith, if◌then◌else◌,
  Option-cases, inl, inr,
}
use mafia_game_party.Prelude.Time.{Time, zero_time}
use mafia_game_party.Game.Types.{Phase, NightStep}
use mafia_game_party.Game.State.{Player, State, kill}
use mafia_game_party.Game.Rand.{Rng}
use mafia_game_party.Game.Engine.{Engine}
use mafia_game_party.Game.Night.{begin_day, schedule_end, mark_dead, resolve_night, night_victim}
use mafia_game_party.Game.Night.Successor.{mark_dead-frame}
use mafia_game_party.Game.Invariant.Defs.{Base}
use mafia_game_party.Game.Invariant.Night.{night_victim_known}
use mafia_game_party.Game.Run.Ages.{schedule_end-players}

-- The players after a night with this target of the mafia and this patient of the doctor.
abbrev pub survivors : Option PlayerId → Option PlayerId → List Player → List Player
survivors none patient ps = ps
survivors (some target) none ps = kill target ps
survivors (some target) (some patient) ps = if patient === target then ps else kill target ps

schedule_end-frame :
    (now : Time) (s : State)
    → ((schedule_end now s).phase ≡ s.phase)
      × ((schedule_end now s).day ≡ s.day)
      × ((schedule_end now s).night_step ≡ s.night_step)
      × ((schedule_end now s).pending_mafia_target ≡ s.pending_mafia_target)
      × ((schedule_end now s).pending_doctor_target ≡ s.pending_doctor_target)
      × ((schedule_end now s).pending_police_target ≡ s.pending_police_target)
      × ((schedule_end now s).night_step_deadline ≡ s.night_step_deadline)
      × ((schedule_end now s).police_checked_this_night ≡ s.police_checked_this_night)
unfolding schedule_end
schedule_end-frame now s = ground arith

-- A day that has just begun, with nothing left of the night's actions and its step.
abbrev pub IsMorning : ℕ → State → Type 0
IsMorning day s =
    (s.phase ≡ Phase.day)
    × (s.day ≡ suc day)
    × (s.night_step ≡ NightStep.unset)
    × (s.pending_mafia_target ≡ none)
    × (s.pending_doctor_target ≡ none)
    × (s.pending_police_target ≡ none)
    × (s.night_step_deadline ≡ zero_time)
    × (s.police_checked_this_night ≡ false)

begin_day-IsMorning :
    (now : Time) (s : State) → IsMorning s.day (schedule_end now (begin_day now s))
unfolding begin_day
begin_day-IsMorning now s = ground (arith, schedule_end-frame now (begin_day now s))

quiet_night :
    (now : Time) (s : State)
    → night_victim s ≡ none
    → (schedule_end now (begin_day now s)).players
      ≡ survivors s.pending_mafia_target s.pending_doctor_target s.players
unfolding night_victim begin_day
quiet_night now s n = ground (arith, schedule_end-players now (begin_day now s))

deadly_night :
    (s : State) (v : PlayerId)
    → night_victim s ≡ some v
    → kill v s.players ≡ survivors s.pending_mafia_target s.pending_doctor_target s.players
unfolding night_victim
deadly_night s v n = ground arith

begin_day-players : (now : Time) (s : State) → (begin_day now s).players ≡ s.players
unfolding begin_day
begin_day-players now s = refl

module _ (R : Rng) where
  -- From a state that meets the invariant's first part the end of a night kills the mafia's target,
  -- unless the doctor protects it or there is none, and nobody else; the next day begins, and no night
  -- action is left.
  pub resolve_night_lem :
      (e : Engine)
      → Base e.state
      → let s = (resolve_night R e).0.state in
        (s.players
          ≡ survivors e.state.pending_mafia_target e.state.pending_doctor_target e.state.players)
        × IsMorning e.state.day s
  unfolding resolve_night
  resolve_night_lem e b = elim (Option-cases (night_victim e.state)) [
    | inl n ↦
        rw (n, resolve_night) (quiet_night e.clock e.state n, begin_day-IsMorning e.clock e.state)
    | inr (v, n) ↦
        let e' = (mark_dead R v e).0 in
        ground (
          arith,
          night_victim_known e.state v n b.target_known,
          deadly_night e.state v n,
          mark_dead-frame R v e,
          begin_day-players e'.clock e'.state,
          schedule_end-players e'.clock (begin_day e'.clock e'.state),
          begin_day-IsMorning e'.clock e'.state,
        )
  ]
