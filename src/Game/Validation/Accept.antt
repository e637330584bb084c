-- ===== src/Game/Validation/Accept.antt =====
-- Which options `validateOptions` accepts (validation.go), with Go's 64-bit arithmetic.
use mafia_game_party.Prelude.{
  ℕ, ◌+◌, ◌≤◌, ◌<◌, none, List, [], ◌∷◌, ◌++◌, ◌≡◌, refl, ◌⊎◌, ◌↔◌, arith, pos, pos_part, ◌≤ℤ◌,
  ◌-ℤ◌, ◌+ℤ◌, IsInt64,
}
use mafia_game_party.Game.Types.{Options}
use mafia_game_party.Game.Error.{FieldError}
use mafia_game_party.Game.Validation.{
  player_count_errors, max_players_errors, mafia_count_errors, majority_errors,
  plain_citizen_errors, seconds_errors, error_of, validate_options,
}

-- What the rules mean: the numbers as they are, without a wrap-around.
pub record IsValid (o : Options) (n : ℕ) : Type 0 where
  pub enough : 6 ≤ n
  pub not_too_many : n ≤ 12
  pub room : (o.max_players ≡ pos 0) ⊎ ((pos n ≤ℤ o.max_players) × (o.max_players ≤ℤ pos 12))
  pub some_mafia : pos 1 ≤ℤ o.mafia_count
  pub outnumbered : pos_part o.mafia_count + pos_part o.mafia_count < n
  pub plain_citizen : pos_part o.mafia_count + 3 ≤ n
  pub intro_long : pos 5 ≤ℤ o.intro_seconds_per_player
  pub discussion_long : pos 30 ≤ℤ o.discussion_seconds

module _ (o : Options) (n : ℕ) where
  count_rule : player_count_errors (pos n) ≡ [] → (6 ≤ n) × (n ≤ 12)
  unfolding player_count_errors
  count_rule h = ground arith

  room_rule :
      6 ≤ n
      → max_players_errors o (pos n) ≡ []
      → (o.max_players ≡ pos 0) ⊎ ((pos n ≤ℤ o.max_players) × (o.max_players ≤ℤ pos 12))
  unfolding max_players_errors
  room_rule k h = ground arith

  mafia_rule : mafia_count_errors o ≡ [] → pos 1 ≤ℤ o.mafia_count
  unfolding mafia_count_errors
  mafia_rule h = ground arith

  module _ (w : IsInt64 o.mafia_count) (k : 6 ≤ n) (l : n ≤ 12) (m : pos 1 ≤ℤ o.mafia_count) where
    plain_citizen_rule : plain_citizen_errors o (pos n) ≡ [] → pos_part o.mafia_count + 3 ≤ n
    unfolding plain_citizen_errors ◌-ℤ◌
    plain_citizen_rule h = ground arith

    -- `MafiaCount + 1` wraps at the largest number, which the rule above does not let through.
    majority_rule :
        pos_part o.mafia_count + 3 ≤ n
        → majority_errors o (pos n) ≡ []
        → pos_part o.mafia_count + pos_part o.mafia_count < n
    unfolding majority_errors ◌-ℤ◌ ◌+ℤ◌
    majority_rule c h = ground arith

  seconds_rule :
      seconds_errors o ≡ []
      → (pos 5 ≤ℤ o.intro_seconds_per_player) × (pos 30 ≤ℤ o.discussion_seconds)
  unfolding seconds_errors
  seconds_rule h = ground arith

all_empty :
    (a b c d e f : List FieldError)
    → error_of (a ++ (b ++ (c ++ (d ++ (e ++ f))))) ≡ none
    → (a ≡ []) × (b ≡ []) × (c ≡ []) × (d ≡ []) × (e ≡ []) × (f ≡ [])
all_empty [] [] [] [] [] [] h = (refl, refl, refl, refl, refl, refl)
all_empty (x ∷ a) b c d e f h = cc
all_empty [] (x ∷ b) c d e f h = cc
all_empty [] [] (x ∷ c) d e f h = cc
all_empty [] [] [] (x ∷ d) e f h = cc
all_empty [] [] [] [] (x ∷ e) f h = cc
all_empty [] [] [] [] [] (x ∷ f) h = cc

accepted-IsValid :
    (o : Options) (n : ℕ) → IsInt64 o.mafia_count → validate_options o (pos n) ≡ none → IsValid o n
unfolding validate_options
accepted-IsValid o n w h =
    let (e0, e1, e2, e3, e4, e5) =
      all_empty (player_count_errors (pos n)) (max_players_errors o (pos n)) (mafia_count_errors o)
        (majority_errors o (pos n)) (plain_citizen_errors o (pos n)) (seconds_errors o) h in
    let (low, high) = count_rule o n e0 in
    let m = mafia_rule o n e2 in
    let plain = plain_citizen_rule o n w low high m e4 in
    record {
      enough = low;
      not_too_many = high;
      room = room_rule o n low e1;
      some_mafia = m;
      outnumbered = majority_rule o n w low high m plain e3;
      plain_citizen = plain;
      intro_long = (seconds_rule o n e5).0;
      discussion_long = (seconds_rule o n e5).1;
    }

IsValid-accepted : (o : Options) (n : ℕ) → IsValid o n → validate_options o (pos n) ≡ none
unfolding validate_options player_count_errors max_players_errors mafia_count_errors majority_errors
    plain_citizen_errors seconds_errors ◌-ℤ◌ ◌+ℤ◌
IsValid-accepted o n v = ground arith

-- For `n` players and a mafia count that is any 64-bit number, `validateOptions` returns no error
-- exactly if the rules hold of the numbers as they are: the wrap-around of Go's `int` in
-- `playerCount - MafiaCount`, `MafiaCount + 1` and `citizenSide - 2` lets nothing else through.
pub validate_options_iff :
    (o : Options) (n : ℕ)
    → IsInt64 o.mafia_count
    → (validate_options o (pos n) ≡ none) ↔ IsValid o n
validate_options_iff o n w = (accepted-IsValid o n w, IsValid-accepted o n)
