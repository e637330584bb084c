-- ===== src/Game/Engine.antt =====
-- internal/game/engine.go: the engine's fields, and how a call ends.
use mafia_game_party.Prelude.{ℕ, Option, none, some, List, ◌⊎◌, inl, inr, ◌≡◌, refl}
use mafia_game_party.Prelude.Time.{Time}
use mafia_game_party.Game.State.{State, zero_state}
use mafia_game_party.Game.Event.{EventEnvelope}
use mafia_game_party.Game.Error.{Failure}
use mafia_game_party.Game.Keyword.{KeywordPool}

-- `clock` is the reading of `e.clock.Now()` during the call at hand; `rng` is what the reader still
-- delivers; `pool` is the field of the default `RoleAssigner`.
pub record Engine : Type 0 where
  pub state : State
  pub clock : Time
  pub rng : List ℕ
  pub pool : KeywordPool

-- `NewDefault`: the engine before a game.
abbrev pub new_default : KeywordPool → Time → List ℕ → Engine
new_default pool clock rng = record { state = zero_state; clock = clock; rng = rng; pool = pool }

pub data Result {ℓ} (A : Type ℓ) : Type ℓ where
  ok : A → Result A
  err : Failure → Result A

-- A method of the engine: the engine that it leaves, and its events or its error. The state that
-- the Go method returns besides is a copy of the state that it leaves, except for that of `Tick`,
-- which is Game.Tick.tick_state.
abbrev pub Method : Type 0
Method = Engine → Engine × Result (List EventEnvelope)

abbrev pub set_state : State → Engine → Engine
set_state s e = record e { state = s }

abbrev pub fail : Failure → Method
fail f e = (e, err f)

abbrev pub succeed : State → List EventEnvelope → Method
succeed s events e = (set_state s e, ok events)

-- `if err := …; err != nil { return …, err }`
infixr 5 ◌>>◌
abbrev pub ◌>>◌ : Option Failure → Method → Method
none >> k = k
some f >> k = fail f

-- To split on a computed result and keep the equation.
pub Result-cases {ℓ} :
    {A : Type ℓ} (r : Result A) → ((a : A) × (r ≡ ok a)) ⊎ ((f : Failure) × (r ≡ err f))
Result-cases (ok a) = inl (a, refl)
Result-cases (err f) = inr (f, refl)
