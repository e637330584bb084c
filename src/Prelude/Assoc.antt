-- ===== src/Prelude/Assoc.antt =====
-- Go maps with identifiers for keys, as association lists with one entry for a key.
use mathlib.Core.List.{List, [], ◌∷◌}
use mathlib.Core.Option.{Option, none, some}
use mathlib.Core.Path.{◌≡◌, refl}
use native.Mathlib.Omega.{arith}
use mafia_game_party.Prelude.Tests.{if◌then◌else◌}
use mafia_game_party.Prelude.Text.{PlayerId, ◌===◌}

module _ {ℓ} {V : Type ℓ} where
  -- `v, ok := m[k]`
  unfoldable pub lookup : PlayerId → List (PlayerId × V) → Option V
  lookup k [] = none
  lookup k ((j, v) ∷ m) = if j === k then some v else lookup k m

  -- `m[k]` with the zero value for a missing key
  unfoldable pub lookup_or : V → PlayerId → List (PlayerId × V) → V
  lookup_or d k [] = d
  lookup_or d k ((j, v) ∷ m) = if j === k then v else lookup_or d k m

  -- `m[k] = v`
  unfoldable pub insert : PlayerId → V → List (PlayerId × V) → List (PlayerId × V)
  insert k v [] = (k, v) ∷ []
  insert k v ((j, w) ∷ m) = if j === k then (j, v) ∷ m else (j, w) ∷ insert k v m

  pub lookup-insert :
      (k j : PlayerId) (v : V) (m : List (PlayerId × V))
      → lookup j (insert k v m) ≡ (if k === j then some v else lookup j m)
  unfolding lookup insert
  lookup-insert k j v [] = refl
  lookup-insert k j v ((i, w) ∷ m) = ground (arith, lookup-insert k j v m)

  pub lookup_or-insert :
      (d : V) (k j : PlayerId) (v : V) (m : List (PlayerId × V))
      → lookup_or d j (insert k v m) ≡ (if k === j then v else lookup_or d j m)
  unfolding lookup_or insert
  lookup_or-insert d k j v [] = refl
  lookup_or-insert d k j v ((i, w) ∷ m) = ground (arith, lookup_or-insert d k j v m)
