-- ===== src/Announce/Texts.antt =====
-- internal/announce/catalog_data.go and the constants of catalog_default.go: the texts and the cues. A
-- text with a verb of `fmt` is a function of what stands in its place.
use Prim.Native.String.{◌++◌}
use mafia_game_party.Prelude.{String}
use mafia_game_party.Game.Types.{Role}

abbrev pub msg_game_started : String
msg_game_started = "마피아 게임이 시작됩니다. 모든 시민은 침묵 속에서 운명을 받아들이시오."

abbrev pub msg_phase_intro : String → String
msg_phase_intro x = "각자 차례대로 자기소개를 진행하시오. 한 사람당 " ++ (x ++ "초가 주어집니다.")

abbrev pub msg_phase_night : String
msg_phase_night = "이제 밤이 깊어졌습니다. 모두 눈을 감으시오."

abbrev pub msg_phase_day_first : String
msg_phase_day_first = "첫째 날 아침이 밝았습니다. 어떤 자가 마을을 위협하는지, 토론을 시작하시오."

abbrev pub msg_phase_day : String → String
msg_phase_day x = x ++ "일째 아침이 밝았습니다. 마을은 어떤 운명을 맞이했는가."

abbrev pub msg_phase_vote : String
msg_phase_vote = "토론은 끝났습니다. 이제 의심스러운 자에게 표를 던지시오."

abbrev pub msg_phase_recount : String
msg_phase_recount = "결과가 같습니다. 마지막 한 번 더, 신중히 선택하시오."

abbrev pub msg_intro_speaker : String → String
msg_intro_speaker x = x ++ ", 발언하시오."

abbrev pub msg_death : String → String
msg_death x = "전날 밤 " ++ (x ++ "이(가) 사망했습니다. 마을의 슬픔이 깊어집니다.")

abbrev pub msg_peaceful_night : String
msg_peaceful_night = "전날 밤에는 아무도 사망하지 않았습니다."

abbrev pub msg_eliminated : String → String → String
msg_eliminated x y = x ++ ("이(가) 마을의 결정으로 처형되었습니다. 그의 정체는 " ++ (y ++ "이었습니다."))

abbrev pub msg_night_step_mafia : String
msg_night_step_mafia = "마피아는 눈을 뜨고, 처단할 자를 지목하시오."

abbrev pub msg_night_step_police : String
msg_night_step_police = "경찰은 눈을 뜨고, 의심스러운 자를 조사하시오."

abbrev pub msg_night_step_doctor : String
msg_night_step_doctor = "의사는 눈을 뜨고, 지킬 자를 선택하시오."

abbrev pub msg_timer_30 : String
msg_timer_30 = "토론 종료까지 30초 남았습니다."

abbrev pub msg_timer_10 : String
msg_timer_10 = "토론 종료까지 10초 남았습니다. 마음을 정하시오."

abbrev pub msg_timer_0 : String
msg_timer_0 = "토론이 종료되었습니다."

abbrev pub msg_vote_no_elim : String
msg_vote_no_elim = "재투표 또한 동률이었습니다. 오늘은 처형이 없습니다."

abbrev pub msg_end_mafia : String
msg_end_mafia = "마피아의 승리. 어둠이 마을을 삼켰습니다."

abbrev pub msg_end_citizen : String
msg_end_citizen = "시민의 승리. 정의가 어둠을 몰아냈습니다."

abbrev pub msg_end_force : String
msg_end_force = "진행자의 결정으로 게임이 종료되었습니다."

abbrev pub msg_voice_on : String
msg_voice_on = "음성 안내가 활성화되었습니다."

abbrev pub msg_voice_off : String
msg_voice_off = "음성 안내가 비활성화되었습니다."

abbrev pub msg_restore_notice : String
msg_restore_notice = "이전 게임이 복원되었습니다. 같은 단계부터 이어집니다."

abbrev pub msg_persist_failure : String
msg_persist_failure = "게임 상태를 저장하지 못했습니다. 곧 다시 시도합니다."

abbrev pub msg_game_paused : String
msg_game_paused = "잠시 진행을 멈춥니다. 모두 자리를 지키시오."

abbrev pub msg_game_resumed : String
msg_game_resumed = "다시 시간이 흐르기 시작합니다. 진행을 이어가시오."

abbrev pub cue_game_started : String
cue_game_started = "game.started"

abbrev pub cue_phase_intro : String
cue_phase_intro = "phase.intro"

abbrev pub cue_phase_night : String
cue_phase_night = "phase.night"

abbrev pub cue_phase_day_first : String
cue_phase_day_first = "phase.day.first"

abbrev pub cue_phase_day : String
cue_phase_day = "phase.day"

abbrev pub cue_phase_vote : String
cue_phase_vote = "phase.vote"

abbrev pub cue_phase_recount : String
cue_phase_recount = "phase.recount"

abbrev pub cue_night_mafia : String
cue_night_mafia = "night.mafia"

abbrev pub cue_night_police : String
cue_night_police = "night.police"

abbrev pub cue_night_doctor : String
cue_night_doctor = "night.doctor"

abbrev pub cue_intro_speaker : String
cue_intro_speaker = "intro.speaker"

abbrev pub cue_death_announced : String
cue_death_announced = "death.announced"

abbrev pub cue_peaceful_night : String
cue_peaceful_night = "peaceful.night"

abbrev pub cue_eliminated_mafia : String
cue_eliminated_mafia = "eliminated.mafia"

abbrev pub cue_eliminated_not_mafia : String
cue_eliminated_not_mafia = "eliminated.notmafia"

abbrev pub cue_timer_30 : String
cue_timer_30 = "timer.30"

abbrev pub cue_timer_10 : String
cue_timer_10 = "timer.10"

abbrev pub cue_timer_0 : String
cue_timer_0 = "timer.0"

abbrev pub cue_vote_no_elim : String
cue_vote_no_elim = "vote.noelim"

abbrev pub cue_end_mafia : String
cue_end_mafia = "end.mafia"

abbrev pub cue_end_citizen : String
cue_end_citizen = "end.citizen"

abbrev pub cue_end_force : String
cue_end_force = "end.force"

abbrev pub cue_voice_on : String
cue_voice_on = "voice.on"

abbrev pub cue_voice_off : String
cue_voice_off = "voice.off"

abbrev pub cue_game_paused : String
cue_game_paused = "game.paused"

abbrev pub cue_game_resumed : String
cue_game_resumed = "game.resumed"

abbrev pub cue_system_restore : String
cue_system_restore = "system.restore"

abbrev pub cue_system_persist_failure : String
cue_system_persist_failure = "system.persist.failure"

-- `%s` for the strings outside the constants does not arise; the empty role is "".
unfoldable pub role_kr : Role → String
role_kr Role.mafia = "마피아"
role_kr Role.doctor = "의사"
role_kr Role.police = "경찰"
role_kr Role.citizen = "시민"
role_kr Role.unset = ""
