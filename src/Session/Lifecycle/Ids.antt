-- ===== src/Session/Lifecycle/Ids.antt =====
-- Each member stands under its own id, whatever the manager is asked.
use mafia_game_party.Prelude.{
  ℕ, Bool, true, false, not, Option, none, some, List, [], ◌∷◌, String, PlayerId, nobody, ◌===◌,
  lookup, ◌≡◌, refl, ◌≢◌, arith,
}
use mafia_game_party.Game.Types.{Options}
use mafia_game_party.Game.Event.{EventEnvelope, force_end_game}
use mafia_game_party.Game.Validation.{require}
use mafia_game_party.Game.Rand.{Rng}
use mafia_game_party.Game.Engine.{Engine, Result, ok, err}
use mafia_game_party.Game.Apply.{apply}
use mafia_game_party.Announce.{Catalog}
use mafia_game_party.Persistence.{Store}
use mafia_game_party.Session.Types.{Member, JoinResult, Outcome, done, fault, Manager, Call}
use mafia_game_party.Session.HostAuthority.{verify}
use mafia_game_party.Session.Token.{issue_unique_token}
use mafia_game_party.Session.Members.{lobby_state}
use mafia_game_party.Session.Members.Ids.{
  HaveIds, insert-HaveIds, dispatched-HaveIds, guarded-HaveIds,
}
use mafia_game_party.Session.Lifecycle.{
  admit, with_token, with_new_token, create_check, create_session, join_check, join_player, connect,
  member_by_token, resumed, resume_player, field_error, begun, begin_with, start_game, open_room,
  host_start_game, host_close_room, progressed, host_force_terminate,
}

lookup-connect :
    (t : String) (j : PlayerId) (members : List (PlayerId × Member))
    → lookup j members ≡ none
    → lookup j (connect t members) ≡ none
unfolding connect lookup
lookup-connect t j [] h = refl
lookup-connect t j ((i, m) ∷ members) h = ground (arith, lookup-connect t j members)

connect-HaveIds :
    (t : String) (members : List (PlayerId × Member))
    → HaveIds members
    → HaveIds (connect t members)
unfolding connect HaveIds
connect-HaveIds t [] h = tt
connect-HaveIds t ((i, m) ∷ members) h =
    ground (arith, connect-HaveIds t members h.3, lookup-connect t i members h.2)

module _ (encode : List ℕ → String) (C : Catalog) (S : Store) where
  admit-HaveIds :
      (id : PlayerId) (name token : String) (is_host : Bool) (m : Manager S)
      → id ≢ nobody
      → HaveIds m.sess.members
      → HaveIds (admit encode C S id name token is_host m).0.sess.members
  unfolding admit
  admit-HaveIds id name token is_host m p h =
      dispatched-HaveIds C S _ _ _ (insert-HaveIds id _ m.sess.members p refl h)

  with_token-HaveIds :
      (t : Outcome String) (k : String → Call S JoinResult) (m : Manager S)
      → HaveIds m.sess.members
      → ((t : String) → HaveIds (k t m).0.sess.members)
      → HaveIds (with_token encode C S t k m).0.sess.members
  with_token-HaveIds (done t) k m h p = p t
  with_token-HaveIds (fault f) k m h p = h

  pub join_player-HaveIds :
      (id : PlayerId) (name : String) (m : Manager S)
      → id ≢ nobody
      → HaveIds m.sess.members
      → HaveIds (join_player encode C S id name m).0.sess.members
  unfolding join_player with_new_token
  join_player-HaveIds id name m p h =
      let (t, rest) = issue_unique_token encode m.sess.members m.rand in
      guarded-HaveIds (join_check encode C S name m) _ m h (
        with_token-HaveIds (issue_unique_token encode m.sess.members m.rand).0
          (λ t. admit encode C S id name t false) (record m { rand = rest }) h
          (λ t. admit-HaveIds id name t false (record m { rand = rest }) p h))

  pub create_session-HaveIds :
      (id : PlayerId) (game_id name : String) (m : Manager S)
      → id ≢ nobody
      → HaveIds m.sess.members
      → HaveIds (create_session encode C S id game_id name m).0.sess.members
  unfolding create_session with_new_token
  create_session-HaveIds id game_id name m p h =
      let (t, rest) = issue_unique_token encode m.sess.members m.rand in
      guarded-HaveIds (create_check encode C S name m) _ m h (
        with_token-HaveIds (issue_unique_token encode m.sess.members m.rand).0
          (λ t m.
            admit encode C S id name t true
              (record m { sess = record m.sess { game_id = game_id; host_id = id } }))
          (record m { rand = rest }) h
          (λ t.
            admit-HaveIds id name t true
              (record m { rand = rest; sess = record m.sess { game_id = game_id; host_id = id } }) p
              h))

module _ (S : Store) where
  resumed-HaveIds :
      (t : String) (x : Option Member) (m : Manager S)
      → HaveIds m.sess.members
      → HaveIds (resumed S t x m).0.sess.members
  resumed-HaveIds t none m h = h
  resumed-HaveIds t (some x) m h = connect-HaveIds t m.sess.members h

  pub resume_player-HaveIds :
      (t : String) (m : Manager S)
      → HaveIds m.sess.members
      → HaveIds (resume_player S t m).0.sess.members
  unfolding resume_player
  resume_player-HaveIds t m h =
      guarded-HaveIds (require (not (t === "")) (field_error "token")) _ m h
        (resumed-HaveIds t (member_by_token t m.sess.members) m h)

  pub host_close_room-HaveIds :
      (t : String) (m : Manager S)
      → HaveIds m.sess.members
      → HaveIds (host_close_room S t m).0.sess.members
  unfolding host_close_room HaveIds
  host_close_room-HaveIds t m h = guarded-HaveIds (verify t m.host) _ m h tt

module _ (R : Rng) (C : Catalog) (S : Store) where
  begun-HaveIds :
      (x : Engine × Result (List EventEnvelope)) (m : Manager S)
      → HaveIds m.sess.members
      → HaveIds (begun R C S x m).0.sess.members
  begun-HaveIds (e, err f) m h = h
  begun-HaveIds (e, ok envs) m h = dispatched-HaveIds C S e.state envs _ h

  begin_with-HaveIds :
      (host : PlayerId) (o : Options) (m : Manager S)
      → HaveIds m.sess.members
      → HaveIds (begin_with R C S host o m).0.sess.members
  unfolding begin_with
  begin_with-HaveIds host o m h = begun-HaveIds _ m h

  pub start_game-HaveIds :
      (host : PlayerId) (o : Options) (m : Manager S)
      → HaveIds m.sess.members
      → HaveIds (start_game R C S host o m).0.sess.members
  unfolding start_game
  start_game-HaveIds host o m h = ground (arith, begin_with-HaveIds host o m h, h)

  pub host_start_game-HaveIds :
      (t : String) (m : Manager S)
      → HaveIds m.sess.members
      → HaveIds (host_start_game R C S t m).0.sess.members
  unfolding host_start_game
  host_start_game-HaveIds t m h =
      ground (arith, begin_with-HaveIds nobody m.sess.pending_options m h, h)

  pub open_room-HaveIds :
      (game_id t : String) (o : Options) (m : Manager S)
      → HaveIds m.sess.members
      → HaveIds (open_room R C S game_id t o m).0.sess.members
  unfolding open_room HaveIds
  open_room-HaveIds game_id t o m h =
      let none_yet = record m.sess {
        game_id = game_id;
        host_id = nobody;
        members = [];
        pending_options = o;
        room_opened = true;
      } in
      ground (
        arith,
        h,
        dispatched-HaveIds C S (lobby_state game_id nobody []) [] (record m { sess = none_yet }) tt,
      )

  progressed-HaveIds :
      (x : Engine × Result (List EventEnvelope)) (m : Manager S)
      → HaveIds m.sess.members
      → HaveIds (progressed R C S x m).0.sess.members
  progressed-HaveIds (e, err f) m h = h
  progressed-HaveIds (e, ok envs) m h = dispatched-HaveIds C S e.state envs _ h

  pub host_force_terminate-HaveIds :
      (t : String) (m : Manager S)
      → HaveIds m.sess.members
      → HaveIds (host_force_terminate R C S t m).0.sess.members
  unfolding host_force_terminate
  host_force_terminate-HaveIds t m h =
      ground (
        arith,
        h,
        progressed-HaveIds (apply R (force_end_game m.engine.state.host_id) m.engine) m h,
      )
