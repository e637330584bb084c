-- ===== src/Game/Error.antt =====
-- internal/game/error.go, and the errors of validation.go. The texts that are made with
-- `fmt.Sprintf` for developers are left out; the code and the field of an error are kept.
use mafia_game_party.Prelude.{Bool, true, false, List, String, if◌then◌else◌, ◌||◌}

-- `unset` is the empty code of a sentinel that matches every error.
pub data ErrorCode : Type 0 where
  unset validation wrong_phase permission_denied role_mismatch not_representative dead_player
        already_done invalid_target unknown_player :
      ErrorCode

unfoldable pub code_dec : Discrete ErrorCode
code_dec = hlevel

abbrev pub is_code : ErrorCode → ErrorCode → Bool
is_code a b = elim (code_dec a b) [ yes _ ↦ true | no _ ↦ false ]

pub record FieldError : Type 0 where
  pub field : String
  pub code : ErrorCode

-- An `error`: an `*EngineError` with its code and field, or the accumulated `ValidationErrors`.
pub data Failure : Type 0 where
  engine_error : ErrorCode → String → Failure
  validation_errors : List FieldError → Failure

-- `errf(code, …)`
abbrev pub errf : ErrorCode → Failure
errf c = engine_error c ""

-- `errors.Is(e, target)` for a target `*EngineError` of the given code.
unfoldable pub matches : Failure → ErrorCode → Bool
matches (engine_error c field) target =
    if is_code target ErrorCode.unset then true else is_code c target
matches (validation_errors es) target =
    is_code target ErrorCode.unset || is_code target ErrorCode.validation
