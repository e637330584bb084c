-- ===== src/Examples/Views.antt =====
-- Witnesses: what the players of a concrete game see.
use mafia_game_party.Prelude.{List, [], ◌∷◌, nobody, id_dec, if◌then◌else◌, ◌≡◌, refl, inl, inr}
use mafia_game_party.Game.Types.{Role, Phase, role_dec}
use mafia_game_party.Game.State.{Player, find_player}
use mafia_game_party.Game.Invariant.Players.{ids, Distinct}
use mafia_game_party.Session.View.{viewer, plays, build_private_view}
use mafia_game_party.Session.View.Mask.{
  visible_all, AllAlike, build_private_view-visible, build_private_view-secret,
}
use mafia_game_party.Examples.Setup.{player, cast, game_in}
use mafia_game_party.Examples.Distinct.{differ, none_is, all_differ, all_differ_lem}

-- The same players, with the roles of the mafia and of the doctor exchanged.
abbrev other_cast : List Player
other_cast =
    player "a" Role.doctor
    ∷ player "b" Role.mafia
    ∷ player "c" Role.police
    ∷ player "d" Role.citizen
    ∷ player "e" Role.citizen
    ∷ player "f" Role.citizen
    ∷ []

cast-Distinct : Distinct (ids cast)
unfolding all_differ none_is id_dec
cast-Distinct = all_differ_lem (ids cast) refl

build_private_view-visible_example :
    let view = build_private_view (game_in Phase.night) "d" nobody in
    (view.state.players ≡ visible_all (viewer "d" cast) "d" cast)
    × (view.state.police_history ≡ (if plays Role.police (viewer "d" cast) then [] else []))
build_private_view-visible_example =
    build_private_view-visible (game_in Phase.night) "d" nobody cast-Distinct (λ h. cc)

same_viewer : viewer "d" other_cast ≡ viewer "d" cast
unfolding viewer find_player id_dec
same_viewer = refl

casts_alike : AllAlike (viewer "d" cast) "d" cast other_cast
unfolding AllAlike viewer find_player id_dec role_dec
casts_alike = (
  (refl, refl, refl, inr (differ "a" "d" refl, inl refl)),
  (
    (refl, refl, refl, inr (differ "b" "d" refl, inl refl)),
    (
      (refl, refl, refl, inl refl),
      (
        (refl, refl, refl, inl refl),
        ((refl, refl, refl, inl refl), ((refl, refl, refl, inl refl), tt)),
      ),
    ),
  ),
)

build_private_view-secret_example :
    (build_private_view
      (record (game_in Phase.night) { players = other_cast })
      "d"
      nobody).state.players
    ≡ (build_private_view (game_in Phase.night) "d" nobody).state.players
build_private_view-secret_example =
    build_private_view-secret (game_in Phase.night)
      (record (game_in Phase.night) { players = other_cast }) "d" nobody cast-Distinct cast-Distinct
      (λ h. cc) (λ h. cc) same_viewer casts_alike
