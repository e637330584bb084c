-- ===== src/Ws/Handler/Joined.antt =====
-- A player that joins has an id.
use mafia_game_party.Prelude.{
  ℕ, true, false, not, Option, none, some, List, [], ◌∷◌, String, PlayerId, nobody, ◌===◌, ◌≢◌,
  arith,
}
use mafia_game_party.Game.Error.{Failure}
use mafia_game_party.Game.Validation.{require}
use mafia_game_party.Announce.{Catalog}
use mafia_game_party.Persistence.{Store}
use mafia_game_party.Session.Types.{Member, JoinResult, Outcome, done, fault, Manager, Call, ◌>>◌}
use mafia_game_party.Session.Members.Ids.{HaveIds}
use mafia_game_party.Session.Token.{issue_unique_token}
use mafia_game_party.Session.Lifecycle.{
  admit, with_token, with_new_token, create_check, create_session, join_check, join_player,
  member_by_token, resumed, field_error, resume_player,
}

-- If the call has a result, its player has an id.
unfoldable pub HasId : Outcome JoinResult → Type 0
HasId (done jr) = jr.player_id ≢ nobody
HasId (fault f) = Unit

module _ {S : Store} where
  guarded-HasId :
      (check : Option Failure) (k : Call S JoinResult) (m : Manager S)
      → HasId (k m).1
      → HasId ((check >> k) m).1
  unfolding HasId
  guarded-HasId none k m p = p
  guarded-HasId (some f) k m p = tt

module _ (encode : List ℕ → String) (C : Catalog) (S : Store) where
  with_token-HasId :
      (t : Outcome String) (k : String → Call S JoinResult) (m : Manager S)
      → ((t : String) (m : Manager S) → HasId (k t m).1)
      → HasId (with_token encode C S t k m).1
  unfolding HasId
  with_token-HasId (done t) k m p = p t m
  with_token-HasId (fault f) k m p = tt

  pub join_player-HasId :
      (id : PlayerId) (name : String) (m : Manager S)
      → id ≢ nobody
      → HasId (join_player encode C S id name m).1
  unfolding join_player with_new_token admit HasId
  join_player-HasId id name m p = guarded-HasId (join_check encode C S name m) _ m (
      with_token-HasId (issue_unique_token encode m.sess.members m.rand).0
        (λ t. admit encode C S id name t false) _ (λ t m. p))

  pub create_session-HasId :
      (id : PlayerId) (game_id name : String) (m : Manager S)
      → id ≢ nobody
      → HasId (create_session encode C S id game_id name m).1
  unfolding create_session with_new_token admit HasId
  create_session-HasId id game_id name m p = guarded-HasId (create_check encode C S name m) _ m (
      with_token-HasId (issue_unique_token encode m.sess.members m.rand).0
        (λ t m.
          admit encode C S id name t true
            (record m { sess = record m.sess { game_id = game_id; host_id = id } }))
        _ (λ t m. p))

module _ (S : Store) where
  resumed-HasId :
      (t : String) (members : List (PlayerId × Member)) (m : Manager S)
      → HaveIds members
      → HasId (resumed S t (member_by_token t members) m).1
  unfolding member_by_token HaveIds HasId
  resumed-HasId t [] m p = tt
  resumed-HasId t ((i, x) ∷ members) m p = ground (arith, resumed-HasId t members m)

  pub resume_player-HasId :
      (t : String) (m : Manager S) → HaveIds m.sess.members → HasId (resume_player S t m).1
  unfolding resume_player
  resume_player-HasId t m p =
      guarded-HasId (require (not (t === "")) (field_error "token"))
        (resumed S t (member_by_token t m.sess.members)) m (resumed-HasId t m.sess.members m p)
