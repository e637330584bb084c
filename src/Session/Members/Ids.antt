-- ===== src/Session/Members/Ids.antt =====
-- Each member stands under its own id, whatever the manager is asked.
use mafia_game_party.Prelude.{
  Option, none, some, List, [], ◌∷◌, PlayerId, nobody, insert, lookup, lookup-insert, ◌≡◌, ◌≢◌,
  refl, sym, subst, arith,
}
use mafia_game_party.Game.State.{State}
use mafia_game_party.Game.Event.{EventEnvelope}
use mafia_game_party.Game.Error.{Failure}
use mafia_game_party.Announce.{Catalog}
use mafia_game_party.Persistence.{Store}
use mafia_game_party.Session.Types.{Member, Manager, Call, ◌>>◌}
use mafia_game_party.Session.Dispatch.{persist_and_dispatch}
use mafia_game_party.Session.Dispatch.Frame.{persist_and_dispatch-frame}

-- Each member stands under its own id, which is not empty, and under no other.
unfoldable pub HaveIds : List (PlayerId × Member) → Type 0
HaveIds [] = Unit
HaveIds ((i, m) ∷ members) =
    (m.id ≢ nobody) × (m.id ≡ i) × (lookup i members ≡ none) × HaveIds members

lookup-insert_other :
    (i j : PlayerId) (x : Member) (members : List (PlayerId × Member))
    → i ≢ j
    → lookup j members ≡ none
    → lookup j (insert i x members) ≡ none
lookup-insert_other i j x members n h = ground (arith, lookup-insert i j x members)

pub insert-HaveIds :
    (i : PlayerId) (x : Member) (members : List (PlayerId × Member))
    → x.id ≢ nobody
    → x.id ≡ i
    → HaveIds members
    → HaveIds (insert i x members)
unfolding insert lookup HaveIds
insert-HaveIds i x [] p e h = (p, e, refl, tt)
insert-HaveIds i x ((j, y) ∷ members) p e h =
    ground (arith, insert-HaveIds i x members p e h.3, lookup-insert_other i j x members, h.2)

module _ (C : Catalog) (S : Store) where
  -- Saving and telling keep the members.
  pub dispatched-HaveIds :
      (s : State) (envs : List EventEnvelope) (m : Manager S)
      → HaveIds m.sess.members
      → HaveIds (persist_and_dispatch C S s envs m).0.sess.members
  dispatched-HaveIds s envs m h =
      subst (λ sess. HaveIds sess.members) (sym (persist_and_dispatch-frame C S s envs m).0) h

module _ {S : Store} where
  pub guarded-HaveIds :
      {A : Type 0} (check : Option Failure) (k : Call S A) (m : Manager S)
      → HaveIds m.sess.members
      → HaveIds (k m).0.sess.members
      → HaveIds ((check >> k) m).0.sess.members
  guarded-HaveIds none k m h p = p
  guarded-HaveIds (some f) k m h p = h
