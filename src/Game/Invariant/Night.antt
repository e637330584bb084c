-- ===== src/Game/Invariant/Night.antt =====
-- The night keeps the invariant (resolve_night.go, handlers_night.go).
use mafia_game_party.Prelude.{
  true, Option, none, some, List, PlayerId, ◌≡◌, refl, ◌≢◌, arith, Option-cases, inl, inr,
}
use mafia_game_party.Prelude.Time.{Time}
use mafia_game_party.Game.Types.{Phase}
use mafia_game_party.Game.State.{Player, State, kill, find_player}
use mafia_game_party.Game.Error.{Failure}
use mafia_game_party.Game.Rand.{Rng}
use mafia_game_party.Game.Engine.{Engine, err}
use mafia_game_party.Game.Night.{
  begin_day, schedule_end, mark_dead, resolve_night, night_victim, enter_night,
}
use mafia_game_party.Game.Night.Successor.{mark_dead-frame, mark_dead-IsLed}
use mafia_game_party.Game.Invariant.Players.{ids, Distinct, ids-kill, is_known, is_known-kill}
use mafia_game_party.Game.Invariant.Defs.{known_target, Base, Inv}

pub schedule_end-Inv : (now : Time) (s : State) → Base s → Inv (schedule_end now s)
unfolding schedule_end
schedule_end-Inv now s b = ground arith

pub begin_day-Base : (now : Time) (s : State) → Base s → Base (begin_day now s)
unfolding begin_day
begin_day-Base now s b = ground arith

pub enter_night-Base : (now : Time) (s : State) → Base s → Base (enter_night now s).0
unfolding enter_night
enter_night-Base now s b = ground arith

Distinct-kill : (i : PlayerId) (ps : List Player) → Distinct (ids ps) → Distinct (ids (kill i ps))
Distinct-kill i ps d = rw (ids-kill i ps) d

known_target-kill :
    (t : Option PlayerId) (i : PlayerId) (ps : List Player)
    → known_target t (kill i ps) ≡ known_target t ps
known_target-kill none i ps = refl
known_target-kill (some j) i ps = is_known-kill i j ps

pub night_victim_known :
    (s : State) (v : PlayerId)
    → night_victim s ≡ some v
    → known_target s.pending_mafia_target s.players ≡ true
    → find_player v s.players ≢ none
unfolding night_victim is_known
night_victim_known s v h k = λ n. ground arith

module _ (R : Rng) where
  pub mark_dead-Base : (i : PlayerId) (e : Engine) → Base e.state → Base (mark_dead R i e).0.state
  mark_dead-Base i e b = ground (
    arith,
    mark_dead-frame R i e,
    mark_dead-IsLed R i e b.distinct b.led,
    Distinct-kill i e.state.players b.distinct,
    known_target-kill e.state.pending_mafia_target i e.state.players,
  )

  -- The night of an invariant state ends without an error, and keeps the invariant.
  pub resolve_night-Inv :
      (e : Engine)
      → Base e.state
      → Inv (resolve_night R e).0.state × ((f : Failure) → (resolve_night R e).1 ≢ err f)
  unfolding resolve_night
  resolve_night-Inv e b = elim (Option-cases (night_victim e.state)) [
    | inl n ↦ (
      rw (n, resolve_night)
          (schedule_end-Inv e.clock (begin_day e.clock e.state) (begin_day-Base e.clock e.state b)),
      λ f. rw (n, resolve_night) (λ h. cc),
    )
    | inr (v, n) ↦ ground (
      arith,
      night_victim_known e.state v n b.target_known,
      schedule_end-Inv (mark_dead R v e).0.clock
          (begin_day (mark_dead R v e).0.clock (mark_dead R v e).0.state)
          (begin_day-Base (mark_dead R v e).0.clock (mark_dead R v e).0.state
            (mark_dead-Base v e b)),
    )
  ]

pub enter_night-Inv :
    (now : Time) (s : State) → Inv s → s.phase ≢ Phase.end → Inv (enter_night now s).0
unfolding enter_night
enter_night-Inv now s v h = ground arith
