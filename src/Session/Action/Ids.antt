-- ===== src/Session/Action/Ids.antt =====
-- The calls of a running game keep the members, and so their ids.
use mafia_game_party.Prelude.{List, [], ◌∷◌, arith}
use mafia_game_party.Prelude.Time.{Time}
use mafia_game_party.Game.State.{State}
use mafia_game_party.Game.Event.{Action, EventEnvelope}
use mafia_game_party.Game.Rand.{Rng}
use mafia_game_party.Game.Engine.{Engine, Result, ok, err}
use mafia_game_party.Game.Apply.{apply}
use mafia_game_party.Game.Tick.{tick, tick_state}
use mafia_game_party.Announce.{Catalog}
use mafia_game_party.Persistence.{Store}
use mafia_game_party.Session.Types.{Manager}
use mafia_game_party.Session.Members.Ids.{HaveIds, dispatched-HaveIds}
use mafia_game_party.Session.Action.{answered, submit_action, ticked, tick_session}

module _ (R : Rng) (C : Catalog) (S : Store) where
  answered-HaveIds :
      (a : Action) (x : Engine × Result (List EventEnvelope)) (m : Manager S)
      → HaveIds m.sess.members
      → HaveIds (answered R C S a x m).0.sess.members
  answered-HaveIds a (e, err f) m h = h
  answered-HaveIds a (e, ok envs) m h = dispatched-HaveIds C S e.state envs _ h

  pub submit_action-HaveIds :
      (a : Action) (m : Manager S)
      → HaveIds m.sess.members
      → HaveIds (submit_action R C S a m).0.sess.members
  unfolding submit_action
  submit_action-HaveIds a m h = ground (arith, answered-HaveIds a (apply R a m.engine) m h, h)

  ticked-HaveIds :
      (s : State) (x : Engine × Result (List EventEnvelope)) (m : Manager S)
      → HaveIds m.sess.members
      → HaveIds (ticked R C S s x m).sess.members
  ticked-HaveIds s (e, err f) m h = h
  ticked-HaveIds s (e, ok []) m h = h
  ticked-HaveIds s (e, ok (env ∷ envs)) m h = dispatched-HaveIds C S s (env ∷ envs) _ h

  pub tick_session-HaveIds :
      (now : Time) (m : Manager S)
      → HaveIds m.sess.members
      → HaveIds (tick_session R C S now m).sess.members
  unfolding tick_session
  tick_session-HaveIds now m h =
      ground (arith, ticked-HaveIds (tick_state R now m.engine) (tick R now m.engine) m h, h)
