-- ===== src/Announce/Bundled.antt =====
-- internal/announce/catalog_default.go and error.go: the bundled catalog. The printing of a number
-- with `%d` is a parameter.
pub mod Public
use Prim.Native.String.{◌++◌}
use mafia_game_party.Prelude.{
  ℕ, ◌==◌, Bool, true, false, Option, none, some, List, [], ◌∷◌, String, PlayerId, ◌===◌,
  if◌then◌else◌, ℤ, pos, leb_ℤ,
}
use mafia_game_party.Game.Types.{Role, is_role, Phase, NightStep, EndReason}
use mafia_game_party.Game.Event.{
  Event, EventEnvelope, game_started, phase_changed, intro_speaker_changed, night_step_changed,
  game_paused, game_resumed, death_announced, peaceful_night, discussion_timer_tick, vote_tallied,
  eliminated, game_ended, voice_toggled,
}
use mafia_game_party.Game.Error.{
  ErrorCode, is_code, FieldError, Failure, engine_error, validation_errors,
}
use mafia_game_party.Announce.{Announcement, no_announcement, Severity, CatalogContext, Catalog}
use mafia_game_party.Announce.Texts

unfoldable pub ann : String → String → Severity → Announcement
ann text cue severity = record {
  subtitle = text;
  audio_id = cue;
  severity = severity;
  for_public_only = true;
}

unfoldable pub error_messages : ErrorCode → String
error_messages ErrorCode.validation = "입력이 올바르지 않습니다"
error_messages ErrorCode.wrong_phase = "지금은 그 행동을 할 수 없습니다."
error_messages ErrorCode.permission_denied = "권한이 없습니다."
error_messages ErrorCode.role_mismatch = "당신의 역할은 그 행동을 할 수 없습니다."
error_messages ErrorCode.not_representative = "이번 게임의 마피아 대표자만 살해 대상을 입력할 수 있습니다."
error_messages ErrorCode.dead_player = "사망한 플레이어는 행동할 수 없습니다."
error_messages ErrorCode.already_done = "이번 단계에서는 이미 행동을 완료했습니다."
error_messages ErrorCode.invalid_target = "선택할 수 없는 대상입니다."
error_messages ErrorCode.unknown_player = "알 수 없는 플레이어입니다."
error_messages ErrorCode.unset = "알 수 없는 오류가 발생했습니다."

-- All severities of errors are the same.
unfoldable pub severity_for_code : ErrorCode → Severity
severity_for_code c = Severity.warn

unfoldable pub with_field : ErrorCode → String → String → String
with_field c field base =
    if is_code c ErrorCode.validation
    then (if field === "" then base ++ "." else base ++ (": " ++ field))
    else base

-- `Announcement{…}` of an error, which is for its sender.
abbrev private_ann : String → Severity → Announcement
private_ann text severity = record {
  subtitle = text;
  audio_id = "";
  severity = severity;
  for_public_only = false;
}

module _ (decimal : ℤ → String) (field_message : FieldError → String) where
  abbrev timer_ann : ℕ → Announcement
  timer_ann n =
      if n == 30
      then ann Texts.msg_timer_30 Texts.cue_timer_30 Severity.info
      else if n == 10
      then ann Texts.msg_timer_10 Texts.cue_timer_10 Severity.warn
      else if n == 0
      then ann Texts.msg_timer_0 Texts.cue_timer_0 Severity.info
      else no_announcement

  -- The cases of `PhaseChanged`.
  phase_ann : Phase → ℕ → ℤ → Announcement
  phase_ann Phase.intro day seconds =
      ann (Texts.msg_phase_intro (decimal (if leb_ℤ seconds (pos 0) then pos 20 else seconds)))
        Texts.cue_phase_intro Severity.info
  phase_ann Phase.night day seconds =
      ann Texts.msg_phase_night Texts.cue_phase_night Severity.emphasis
  phase_ann Phase.day day seconds =
      if day == 1
      then ann Texts.msg_phase_day_first Texts.cue_phase_day_first Severity.emphasis
      else ann (Texts.msg_phase_day (decimal (pos day))) Texts.cue_phase_day Severity.emphasis
  phase_ann Phase.vote day seconds = ann Texts.msg_phase_vote Texts.cue_phase_vote Severity.emphasis
  phase_ann Phase.recount day seconds =
      ann Texts.msg_phase_recount Texts.cue_phase_recount Severity.warn
  phase_ann _ day seconds = no_announcement

  step_ann : NightStep → Announcement
  step_ann NightStep.mafia = ann Texts.msg_night_step_mafia Texts.cue_night_mafia Severity.emphasis
  step_ann NightStep.police =
      ann Texts.msg_night_step_police Texts.cue_night_police Severity.emphasis
  step_ann NightStep.doctor =
      ann Texts.msg_night_step_doctor Texts.cue_night_doctor Severity.emphasis
  step_ann _ = no_announcement

  end_ann : EndReason → Announcement
  end_ann EndReason.mafia_win = ann Texts.msg_end_mafia Texts.cue_end_mafia Severity.emphasis
  end_ann EndReason.citizen_win = ann Texts.msg_end_citizen Texts.cue_end_citizen Severity.emphasis
  end_ann EndReason.host_force_end = ann Texts.msg_end_force Texts.cue_end_force Severity.info

  tally_ann : Option PlayerId → Bool → Announcement
  tally_ann e true = no_announcement
  tally_ann none false = ann Texts.msg_vote_no_elim Texts.cue_vote_no_elim Severity.info
  tally_ann (some i) false = no_announcement

  unfoldable pub render_event : Event → CatalogContext → Announcement
  unfolding phase_ann step_ann end_ann tally_ann
  render_event (game_started s) ctx =
      ann Texts.msg_game_started Texts.cue_game_started Severity.emphasis
  render_event (phase_changed p day deadline) ctx = phase_ann p day ctx.intro_seconds_per_player
  render_event (night_step_changed step day deadline) ctx = step_ann step
  render_event (intro_speaker_changed i n) ctx =
      ann (Texts.msg_intro_speaker (ctx.get_name i)) Texts.cue_intro_speaker Severity.info
  render_event (death_announced v) ctx =
      ann (Texts.msg_death (ctx.get_name v)) Texts.cue_death_announced Severity.emphasis
  render_event peaceful_night ctx =
      ann Texts.msg_peaceful_night Texts.cue_peaceful_night Severity.info
  render_event (eliminated i r) ctx =
      ann (Texts.msg_eliminated (ctx.get_name i) (Texts.role_kr r))
        (if is_role r Role.mafia
          then Texts.cue_eliminated_mafia
          else Texts.cue_eliminated_not_mafia)
        Severity.emphasis
  render_event (discussion_timer_tick n) ctx = timer_ann n
  render_event (vote_tallied counts e recount) ctx = tally_ann e recount
  render_event (game_ended w reason reveal) ctx = end_ann reason
  render_event (voice_toggled true) ctx = ann Texts.msg_voice_on Texts.cue_voice_on Severity.info
  render_event (voice_toggled false) ctx = ann Texts.msg_voice_off Texts.cue_voice_off Severity.info
  render_event (game_paused p) ctx = ann Texts.msg_game_paused Texts.cue_game_paused Severity.info
  render_event (game_resumed p deadline) ctx =
      ann Texts.msg_game_resumed Texts.cue_game_resumed Severity.info
  render_event _ ctx = no_announcement

  -- `strings.Join(parts, "; ")`, with a part `field: message` for each error
  unfoldable pub joined_parts : List FieldError → String
  joined_parts [] = ""
  joined_parts (e ∷ []) = e.field ++ (": " ++ field_message e)
  joined_parts (e ∷ f ∷ es) =
      e.field ++ (": " ++ (field_message e ++ ("; " ++ joined_parts (f ∷ es))))

  unfoldable pub render_validation_errors : List FieldError → Announcement
  render_validation_errors es = private_ann ("입력이 올바르지 않습니다 — " ++ joined_parts es) Severity.warn

  unfoldable pub render_failure : Failure → Announcement
  render_failure (engine_error c field) =
      private_ann (with_field c field (error_messages c)) (severity_for_code c)
  render_failure (validation_errors es) = render_validation_errors es

  unfoldable pub system_restore : Announcement
  system_restore = ann Texts.msg_restore_notice Texts.cue_system_restore Severity.info

  unfoldable pub system_persist_failure : Announcement
  system_persist_failure =
      ann Texts.msg_persist_failure Texts.cue_system_persist_failure Severity.warn

  -- `NewDefaultCatalog()`
  unfoldable pub default_catalog : Catalog
  default_catalog = record {
    render = λ env ctx. render_event env.event ctx;
    render_error = λ f sender ctx. render_failure f;
    system_restore = system_restore;
    system_persist_failure = system_persist_failure;
  }
