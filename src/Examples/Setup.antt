-- ===== src/Examples/Setup.antt =====
-- A concrete generator, six players and the options of a game for them.
use mathlib.Core.List.Permᴰ
use mafia_game_party.Prelude.{ℕ, true, List, [], ◌∷◌, PlayerId, pos}
use mafia_game_party.Game.Types.{Role, Phase, Options}
use mafia_game_party.Game.State.{Player, State, zero_state}
use mafia_game_party.Game.Rand.{Rng}
use mafia_game_party.Game.Keyword.{KeywordPool}
use mafia_game_party.Game.Engine.{Engine}

-- A generator that leaves every list as it is and draws 0.
abbrev pub example_rng : Rng
example_rng = record {
  Rand = ℕ;
  new_source = λ seed. 0;
  shuffle = λ r xs. (xs, r);
  intn = λ r n. (0, r);
  shuffle-perm = λ r xs. Permᴰ.refl xs;
  intn-lt = λ r n h. h;
}

abbrev pub example_options : Options
example_options = record {
  mafia_count = pos 1;
  max_players = pos 6;
  intro_seconds_per_player = pos 20;
  discussion_seconds = pos 180;
  night_mafia_seconds = pos 30;
  night_police_seconds = pos 10;
  night_doctor_seconds = pos 10;
  doctor_self_heal_allowed = true;
  announcement_voice_on = true;
}

abbrev pub player : PlayerId → Role → Player
player i role = record { id = i; name = i; alive = true; role = role; keyword = "" }

-- The players of the lobby.
abbrev pub six_players : List Player
six_players =
    player "a" Role.unset
    ∷ player "b" Role.unset
    ∷ player "c" Role.unset
    ∷ player "d" Role.unset
    ∷ player "e" Role.unset
    ∷ player "f" Role.unset
    ∷ []

abbrev pub eight_bytes : List ℕ
eight_bytes = 1 ∷ 2 ∷ 3 ∷ 4 ∷ 5 ∷ 6 ∷ 7 ∷ 8 ∷ []

abbrev pub words : KeywordPool
words = record {
  mafia = "night" ∷ [];
  citizen = "bread" ∷ [];
  doctor = "pill" ∷ [];
  police = "badge" ∷ [];
}

-- A fresh engine.
abbrev pub fresh_engine : Engine
fresh_engine = record { state = zero_state; clock = 100; rng = eight_bytes; pool = words }

-- Six players with their roles: "a" is the mafia.
abbrev pub cast : List Player
cast =
    player "a" Role.mafia
    ∷ player "b" Role.doctor
    ∷ player "c" Role.police
    ∷ player "d" Role.citizen
    ∷ player "e" Role.citizen
    ∷ player "f" Role.citizen
    ∷ []

-- A game of that cast in a phase, on its first day.
abbrev pub game_in : Phase → State
game_in phase = record zero_state {
  phase = phase;
  day = 1;
  players = cast;
  settings = example_options;
  mafia_representative_id = "a";
}

abbrev pub engine_with : State → Engine
engine_with s = record { state = s; clock = 100; rng = eight_bytes; pool = words }
