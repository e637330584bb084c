-- ===== src/Game/Keyword.antt =====
-- internal/game/keyword.go and keyword_loader.go: the keyword pools. The decoding of the JSON file
-- is the library's; the model starts from the four lists.
pub mod Words
use mafia_game_party.Prelude.{Option, none, some, List, [], ◌∷◌, String, length, get_or}
use mafia_game_party.Game.Types.{Role}
use mafia_game_party.Game.Rand.{Rng}

pub record KeywordPool : Type 0 where
  pub mafia : List String
  pub citizen : List String
  pub doctor : List String
  pub police : List String

unfoldable pub pool_for : KeywordPool → Role → List String
pool_for p Role.mafia = p.mafia
pool_for p Role.citizen = p.citizen
pool_for p Role.doctor = p.doctor
pool_for p Role.police = p.police
pool_for p Role.unset = []

module _ (R : Rng) where
  open R use {Rand, intn}

  -- `none` is the error of an empty pool. The index is below the length, so the default is not met.
  pick_from : List String → Rand → Option String × Rand
  pick_from [] r = (none, r)
  pick_from (w ∷ ws) r = let (i, r') = intn r (length (w ∷ ws)) in (some (get_or (w ∷ ws) i ""), r')

  unfoldable pub pick : KeywordPool → Role → Rand → Option String × Rand
  unfolding pick_from pool_for
  pick pool role r = pick_from (pool_for pool role) r

abbrev non_empty : List String → Option KeywordPool → Option KeywordPool
non_empty [] k = none
non_empty (w ∷ ws) k = k

-- `LoadKeywordPool` after decoding: `none` is its validation error.
unfoldable pub load_keyword_pool : KeywordPool → Option KeywordPool
load_keyword_pool raw =
    non_empty raw.mafia
      (non_empty raw.citizen (non_empty raw.doctor (non_empty raw.police (some raw))))
