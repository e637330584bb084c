-- ===== src/Game/Run/Final.antt =====
-- The end of a game is final (apply.go, tick.go).
use mafia_game_party.Prelude.{none, List, [], ◌∷◌, ◌≡◌, refl, arith, ◌∙◌}
use mafia_game_party.Prelude.Time.{Time}
use mafia_game_party.Game.Types.{Phase}
use mafia_game_party.Game.State.{State}
use mafia_game_party.Game.Event.{Action}
use mafia_game_party.Game.Rand.{Rng}
use mafia_game_party.Game.Engine.{Engine}
use mafia_game_party.Game.Apply.{apply}
use mafia_game_party.Game.Tick.{tick_phase, tick}
use mafia_game_party.Game.Run.{Call, act, tick_at, step, run}

-- The state but for the time of its last tick.
abbrev pub timeless : State → State
timeless s = record s { last_tick_at = 0 }

module _ (R : Rng) where
  apply_ended :
      (a : Action) (e : Engine) → e.state.phase ≡ Phase.end → (apply R a e).0.state ≡ e.state
  unfolding apply
  apply_ended a e h = ground arith

  tick_ended :
      (now : Time) (e : Engine)
      → e.state.phase ≡ Phase.end
      → e.state.pending_game_end ≡ none
      → timeless (tick R now e).0.state ≡ timeless e.state
  unfolding tick tick_phase
  tick_ended now e h n = rw (n, tick) (ground arith)

  step_ended :
      (c : Call) (e : Engine)
      → e.state.phase ≡ Phase.end
      → e.state.pending_game_end ≡ none
      → timeless (step R c e).0.state ≡ timeless e.state
  unfolding step
  step_ended (act clock a) e h n = ground (arith, apply_ended a (record e { clock = clock }))
  step_ended (tick_at clock now) e h n = tick_ended now (record e { clock = clock }) h n

  same_fields :
      (s t : State)
      → timeless s ≡ timeless t
      → (s.phase ≡ t.phase) × (s.pending_game_end ≡ t.pending_game_end)
  same_fields s t h = (cc, cc)

  -- Once the game has ended, and no end is pending, no sequence of calls changes its state, but for the
  -- time of the last tick.
  pub end_is_final :
      (calls : List Call) (e : Engine)
      → e.state.phase ≡ Phase.end
      → e.state.pending_game_end ≡ none
      → timeless (run R calls e).state ≡ timeless e.state
  unfolding run
  end_is_final [] e h n = refl
  end_is_final (c ∷ calls) e h n =
      let same = step_ended c e h n in
      let (phase, pending) = same_fields (step R c e).0.state e.state same in
      end_is_final calls (step R c e).0 (phase ∙ h) (pending ∙ n) ∙ same
