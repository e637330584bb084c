-- ===== src/Game/Role.antt =====
-- internal/game/role.go: the assignment of roles and keywords.
pub mod Deal
pub mod Assign
use mathlib.Core.Option
use mafia_game_party.Prelude.{
  ℕ, zero, suc, ◌<◌, Bool, true, false, Option, none, some, List, [], ◌∷◌, map, String, PlayerId,
  nobody, if◌then◌else◌, ltb, length, take, drop, get_or, insert, ℤ, pos, pos_part,
}
use mafia_game_party.Game.Types.{Role, Options}
use mafia_game_party.Game.Error.{ErrorCode, Failure, errf}
use mafia_game_party.Game.Validation.{validate_options}
use mafia_game_party.Game.Rand.{Rng}
use mafia_game_party.Game.Keyword.{KeywordPool, pick}
use mafia_game_party.Game.Engine.{Result, ok, err}

pub record Assignments : Type 0 where
  pub player_roles : List (PlayerId × Role)
  pub player_keywords : List (PlayerId × String)
  pub mafia_ids : List PlayerId
  pub representative_id : PlayerId

-- `roles[id] = role` for each id in turn
unfoldable pub put_all : Role → List PlayerId → List (PlayerId × Role) → List (PlayerId × Role)
put_all role [] m = m
put_all role (i ∷ is) m = put_all role is (insert i role m)

after_mafia : List (PlayerId × Role) → List PlayerId → Option (List (PlayerId × Role))
after_mafia m (doctor ∷ police ∷ rest) =
    some (put_all Role.citizen rest (insert police Role.police (insert doctor Role.doctor m)))
after_mafia m _ = none

-- The first `count` are mafia, then come the doctor, the police and the citizens. `none` is Go's
-- panic on an index out of range.
unfoldable pub deal : ℕ → List PlayerId → Option (List (PlayerId × Role))
unfolding after_mafia put_all
deal count shuffled =
    after_mafia (put_all Role.mafia (take count shuffled) []) (drop count shuffled)

pub record Keywords : Type 0 where
  pub mafia : String
  pub citizen : String
  pub doctor : String
  pub police : String

unfoldable pub keyword_of : Keywords → Role → String
keyword_of k Role.mafia = k.mafia
keyword_of k Role.citizen = k.citizen
keyword_of k Role.doctor = k.doctor
keyword_of k Role.police = k.police
keyword_of k Role.unset = ""

module _ (R : Rng) where
  open R use {Rand, shuffle, intn}

  -- The four draws, in the order of the source; the first empty pool ends them.
  unfoldable pub pick_keywords : KeywordPool → Rand → Option Keywords × Rand
  pick_keywords pool r0 =
      let (m, r1) = pick R pool Role.mafia r0 in
      let (c, r2) = pick R pool Role.citizen r1 in
      let (d, r3) = pick R pool Role.doctor r2 in
      let (p, r4) = pick R pool Role.police r3 in
      (
        Option.bind m λ mafia. Option.bind c λ citizen. Option.bind d λ doctor.
            Option.bind p λ police.
              some (record { mafia = mafia; citizen = citizen; doctor = doctor; police = police }),
        r4,
      )

  unfoldable pub pick_representative : List PlayerId → Rand → PlayerId
  pick_representative ids r =
      if ltb 1 (length ids) then get_or ids (intn r (length ids)).0 nobody else get_or ids 0 nobody

  unfoldable pub with_keywords :
      ℕ → List PlayerId → List (PlayerId × Role) → Option Keywords × Rand → Result Assignments
  with_keywords count shuffled roles (none, r) = err (errf ErrorCode.validation)
  with_keywords count shuffled roles (some k, r) = ok (record {
    player_roles = roles;
    player_keywords = map (λ e. (e.0, keyword_of k e.1)) roles;
    mafia_ids = take count shuffled;
    representative_id = pick_representative (take count shuffled) r;
  })

  -- Valid options leave a doctor and a police; the `none` of `deal` is answered like an empty pool.
  unfoldable pub with_roles :
      KeywordPool → ℕ → List PlayerId → Rand → Option (List (PlayerId × Role)) → Result Assignments
  with_roles pool count shuffled r none = err (errf ErrorCode.validation)
  with_roles pool count shuffled r (some roles) =
      with_keywords count shuffled roles (pick_keywords pool r)

  unfoldable pub after_validation :
      KeywordPool → List PlayerId → Options → Rand → Option Failure → Result Assignments
  after_validation pool ids o r (some f) = err f
  after_validation pool ids o r none =
      let (shuffled, r') = shuffle r ids in
      let count = pos_part o.mafia_count in with_roles pool count shuffled r' (deal count shuffled)

  unfoldable pub assign : KeywordPool → List PlayerId → Options → Rand → Result Assignments
  assign pool ids o r = after_validation pool ids o r (validate_options o (pos (length ids)))
