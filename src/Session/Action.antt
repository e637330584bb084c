-- ===== src/Session/Action.antt =====
-- internal/session/action.go and tick.go: the calls that a running game receives.
pub mod Ids
use mafia_game_party.Prelude.{Option, none, some, List, [], ◌∷◌, PlayerId, if◌then◌else◌}
use mafia_game_party.Prelude.Time.{Time}
use mafia_game_party.Game.State.{State, zero_state}
use mafia_game_party.Game.Event.{
  Action, EventEnvelope, start_game, advance_intro, end_self_intro, submit_mafia_kill,
  submit_doctor_heal, submit_police_check, end_night_early, end_discussion_early, submit_vote,
  toggle_voice, force_end_game, pause_game, resume_game,
}
use mafia_game_party.Game.Error.{ErrorCode, Failure, errf}
use mafia_game_party.Game.Rand.{Rng}
use mafia_game_party.Game.Engine.{Engine, Result, ok, err}
use mafia_game_party.Game.Apply.{apply}
use mafia_game_party.Game.Tick.{tick, tick_state}
use mafia_game_party.Announce.{Catalog}
use mafia_game_party.Persistence.{Store}
use mafia_game_party.Session.Types.{EventOut, Manager}
use mafia_game_party.Session.Dispatch.{persist_and_dispatch, catalog_context, shown}

unfoldable pub sender_of : Action → PlayerId
sender_of (submit_mafia_kill mafia target) = mafia
sender_of (submit_doctor_heal doctor target) = doctor
sender_of (submit_police_check police target) = police
sender_of (submit_vote voter target) = voter
sender_of (start_game host o) = host
sender_of (advance_intro host) = host
sender_of (end_self_intro i) = i
sender_of (end_night_early host) = host
sender_of (end_discussion_early host) = host
sender_of (toggle_voice host on) = host
sender_of (force_end_game host) = host
sender_of (pause_game host) = host
sender_of (resume_game host) = host

module _ (R : Rng) (C : Catalog) (S : Store) where
  -- The outputs, and the error if there is one: Go returns both.
  abbrev pub Answer : Type 0
  Answer = Manager S × List EventOut × Option Failure

  abbrev pub answered : Action → Engine × Result (List EventEnvelope) → Manager S → Answer
  answered a (e, err f) m =
      let ann = C.render_error f (sender_of a) (catalog_context m.sess e.state) in
      (
        record m { engine = e },
        record { envelope = none; announcement = shown ann; state = zero_state } ∷ [],
        some f,
      )
  answered a (e, ok envs) m =
      let (m', outs) = persist_and_dispatch C S e.state envs (record m { engine = e }) in
      (m', outs, none)

  unfoldable pub submit_action : Action → Manager S → Answer
  submit_action a m =
      if m.sess.started
      then answered a (apply R a m.engine) m
      else (m, [], some (errf ErrorCode.wrong_phase))

  -- `s` is the state that the tick returns, which is what is saved and told.
  abbrev pub ticked : State → Engine × Result (List EventEnvelope) → Manager S → Manager S
  ticked s (e, err f) m = record m { engine = e }
  ticked s (e, ok []) m = record m { engine = e }
  ticked s (e, ok (env ∷ envs)) m =
      (persist_and_dispatch C S s (env ∷ envs) (record m { engine = e })).0

  unfoldable pub tick_session : Time → Manager S → Manager S
  tick_session now m =
      if m.sess.started then ticked (tick_state R now m.engine) (tick R now m.engine) m else m
