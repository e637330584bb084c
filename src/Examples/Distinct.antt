-- ===== src/Examples/Distinct.antt =====
-- Lists of concrete identifiers that differ.
use mafia_game_party.Prelude.{
  Bool, true, false, not, ◌&&◌, List, [], ◌∷◌, All, PlayerId, ◌===◌, ◌≡◌, ◌≢◌, arith,
}
use mafia_game_party.Game.Invariant.Players.{Distinct}

pub differ : (i j : PlayerId) → (i === j) ≡ false → i ≢ j
differ i j h = ground arith

unfoldable pub none_is : PlayerId → List PlayerId → Bool
none_is i [] = true
none_is i (j ∷ js) = not (j === i) && none_is i js

unfoldable pub all_differ : List PlayerId → Bool
all_differ [] = true
all_differ (i ∷ is) = none_is i is && all_differ is

none_is_lem : (i : PlayerId) (js : List PlayerId) → none_is i js ≡ true → All (λ j. j ≢ i) js
unfolding none_is
none_is_lem i [] h = tt
none_is_lem i (j ∷ js) h = ground (arith, none_is_lem i js)

pub all_differ_lem : (is : List PlayerId) → all_differ is ≡ true → Distinct is
unfolding all_differ
all_differ_lem [] h = tt
all_differ_lem (i ∷ is) h = ground (arith, none_is_lem i is, all_differ_lem is)
