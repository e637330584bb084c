-- ===== src/Game/Invariant/Defs.antt =====
-- What holds of a game between two calls of the engine, from `Start` on.
use mafia_game_party.Prelude.{
  ◌<◌, Bool, true, false, not, ◌||◌, Option, none, some, List, PlayerId, ◌≡◌, ◌≢◌, ◌⊎◌,
}
use mafia_game_party.Game.Types.{Phase, is_phase}
use mafia_game_party.Game.State.{
  Player, State, PendingGameEnd, live_mafia_count, live_citizen_side_count,
}
use mafia_game_party.Game.Invariant.Players.{Distinct, ids, leads, is_known}

abbrev pub is_started : Phase → Bool
is_started p = not (is_phase p Phase.unset || is_phase p Phase.lobby)

abbrev pub known_target : Option PlayerId → List Player → Bool
known_target none ps = true
known_target (some i) ps = is_known i ps

abbrev pub names_winner : Option PendingGameEnd → Bool
names_winner none = true
names_winner (some p) = elim p.winner [ none ↦ false | some t ↦ true ]

-- The game is open: there are mafia, and fewer of them than of the citizens' side.
abbrev pub IsOpen : List Player → Type 0
IsOpen ps = (0 < live_mafia_count ps) × (live_mafia_count ps < live_citizen_side_count ps)

pub record Base (s : State) : Type 0 where
  pub started : is_started s.phase ≡ true
  pub distinct : Distinct (ids s.players)
  -- the mafia's representative is a living mafia, while there is one
  pub led : (leads s.mafia_representative_id s.players ≡ true) ⊎ (live_mafia_count s.players ≡ 0)
  pub target_known : known_target s.pending_mafia_target s.players ≡ true
  pub winner_known : names_winner s.pending_game_end ≡ true
  pub first_round : s.phase ≡ Phase.vote → s.vote_round ≡ 1
  pub second_round : s.phase ≡ Phase.recount → s.vote_round ≡ 2

-- Besides, a decided game has ended, or its end is pending.
pub record Inv (s : State) : Type 0 where
  pub base : Base s
  pub undecided : s.pending_game_end ≡ none → s.phase ≢ Phase.end → IsOpen s.players
