-- ===== src/Prelude/Text.antt =====
-- Identifiers: Go strings that the program only compares, with each other and with "".
use Prim.Native.String.{String}
use mathlib.Core.Path.{◌≡◌, sym, ◌∙◌}
use mathlib.Core.Bool.{Bool, true, false, false≢true}
use mathlib.Core.Logic.{◌↔◌, inl, inr}
use native.Mathlib.Omega.{arith}
use text.Mathlib.Text.{◌==◌}
use text.Mathlib.TextEquality.{eq_iff}
use mafia_game_party.Prelude.Tests.{Bool-cases}

-- internal/game/types.go: `type PlayerID string`
abbrev pub PlayerId : Type 0
PlayerId = String

-- the empty identifier, Go's zero value
abbrev pub nobody : PlayerId
nobody = ""

-- The decision of equality, kept shut so that a case split on it hands over its proof.
unfoldable pub id_dec : (a b : String) → Dec (a ≡ b)
unfolding Bool-cases
id_dec a b = elim (Bool-cases (a == b)) [
  | inl e ↦ yes ((eq_iff a b).0 e)
  | inr e ↦ no (λ p. false≢true (sym e ∙ (eq_iff a b).1 p))
]

infix 50 ◌===◌
abbrev pub ◌===◌ : String → String → Bool
a === b = elim (id_dec a b) [ yes _ ↦ true | no _ ↦ false ]

===_iff : (a b : String) → ((a === b) ≡ true) ↔ (a ≡ b)
===_iff a b = ground arith
