-- ===== src/Session/Lifecycle/Lobby.antt =====
-- Who is in the lobby: no two members share a name or a token, and the lobby does not overflow.
use mafia_game_party.Prelude.{
  ℕ, suc, ◌≤◌, Bool, true, false, none, List, [], ◌∷◌, String, PlayerId, ◌===◌, any, length, insert,
  ◌≡◌, refl, sym, ◌≢◌, arith, Bool-cases, Option-cases, inl, inr, ℤ, pos, leb_ℤ, ◌≤ℤ◌, ltb, ◌⊎◌,
}
use mafia_game_party.Announce.{Catalog}
use mafia_game_party.Persistence.{Store}
use mafia_game_party.Game.Event.{public_event, player_joined}
use mafia_game_party.Session.Types.{Member, JoinResult, Manager, Outcome, done, fault, Fault, Call}
use mafia_game_party.Session.Token.{token_in_use, issue_unique_token}
use mafia_game_party.Session.Token.Unique.{issue_unique_token-unused}
use mafia_game_party.Session.Dispatch.Frame.{persist_and_dispatch-frame}
use mafia_game_party.Session.Members.{lobby_state}
use mafia_game_party.Session.Lifecycle.{
  new_member, admit, with_new_token, create_session, create_check, join_player, join_check,
}

module _ (f : Member → String) where
  -- No member has the text.
  unfoldable pub Without : String → List (PlayerId × Member) → Type 0
  Without t [] = Unit
  Without t ((id, m) ∷ ms) = (f m ≢ t) × Without t ms

  unfoldable pub Differ : List (PlayerId × Member) → Type 0
  unfolding Without
  Differ [] = Unit
  Differ ((id, m) ∷ ms) = Without (f m) ms × Differ ms

  any-Without :
      (t : String) (ms : List (PlayerId × Member))
      → any (λ e. f e.1 === t) ms ≡ false
      → Without t ms
  unfolding any Without
  any-Without t [] h = tt
  any-Without t ((id, m) ∷ ms) h = elim (Bool-cases (f m === t)) [
    | inl same ↦ absurd (ground arith)
    | inr other ↦ (ground arith, any-Without t ms (rw other at h))
  ]

  insert-Without :
      (t : String) (id : PlayerId) (m : Member) (ms : List (PlayerId × Member))
      → f m ≢ t
      → Without t ms
      → Without t (insert id m ms)
  unfolding insert Without
  insert-Without t id m [] n w = (n, tt)
  insert-Without t id m ((j, x) ∷ ms) n w = ground (arith, insert-Without t id m ms n w.1)

  Without-sym : (t : String) (m : Member) → f m ≢ t → t ≢ f m
  Without-sym t m n = λ e. n (sym e)

  insert-Differ :
      (id : PlayerId) (m : Member) (ms : List (PlayerId × Member))
      → Without (f m) ms
      → Differ ms
      → Differ (insert id m ms)
  unfolding insert Without Differ
  insert-Differ id m [] w d = (tt, tt)
  insert-Differ id m ((j, x) ∷ ms) w d =
      ground (
        arith,
        insert-Without (f x) id m ms (Without-sym (f m) x w.0),
        insert-Differ id m ms w.1 d.1,
      )

length-insert :
    (id : PlayerId) (m : Member) (ms : List (PlayerId × Member))
    → length (insert id m ms) ≤ suc (length ms)
unfolding insert
length-insert id m [] = omega arith
length-insert id m ((j, x) ∷ ms) = ground (arith, length-insert id m ms)

below_limit : (most : ℤ) (n : ℕ) → leb_ℤ most (pos n) ≡ false → pos (suc n) ≤ℤ most
below_limit most n h = ground arith

Outcome-cases :
    {A : Type 0} (o : Outcome A) → ((a : A) × (o ≡ done a)) ⊎ ((f : Fault) × (o ≡ fault f))
Outcome-cases (done a) = inl (a, refl)
Outcome-cases (fault f) = inr (f, refl)

pub record IsLobby (most : ℤ) (members : List (PlayerId × Member)) : Type 0 where
  pub names : Differ (λ m. m.name) members
  pub tokens : Differ (λ m. m.token) members
  pub size : pos (length members) ≤ℤ most
  pub room : pos 1 ≤ℤ most

module _ (encode : List ℕ → String) (C : Catalog) (S : Store) where
  -- The lobby of the manager that a call leaves, and its limit, which stays.
  abbrev Kept : Manager S → Manager S × Outcome JoinResult → Type 0
  Kept m r = (r.0.opts ≡ m.opts) × IsLobby m.opts.max_lobby_size r.0.sess.members

  admit-Kept :
      (id : PlayerId) (name token : String) (is_host : Bool) (m : Manager S)
      → IsLobby m.opts.max_lobby_size m.sess.members
      → Without (λ m. m.name) name m.sess.members
      → token_in_use encode token m.sess.members ≡ false
      → pos (suc (length m.sess.members)) ≤ℤ m.opts.max_lobby_size
      → Kept m (admit encode C S id name token is_host m)
  unfolding admit token_in_use
  admit-Kept id name token is_host m v n t l =
      let x = new_member id name token m.clock in
      let members = insert id x m.sess.members in
      let lobby = lobby_state m.sess.game_id m.sess.host_id members in
      let fr =
        persist_and_dispatch-frame C S lobby (public_event (player_joined id name) ∷ [])
          (record m { sess = record m.sess { members = members } }) in
      (
        fr.5,
        rw fr.0 (record {
          names = insert-Differ (λ m. m.name) id x m.sess.members n v.names;
          tokens =
              insert-Differ (λ m. m.token) id x m.sess.members
                (any-Without (λ m. m.token) token m.sess.members t) v.tokens;
          size = ground (arith, length-insert id x m.sess.members);
          room = v.room;
        }),
      )

  with_new_token-Kept :
      (k : String → Call S JoinResult) (m : Manager S)
      → IsLobby m.opts.max_lobby_size m.sess.members
      → ((t : String) (rest : List ℕ)
          → token_in_use encode t m.sess.members ≡ false
          → Kept m (k t (record m { rand = rest })))
      → Kept m (with_new_token encode C S k m)
  unfolding with_new_token
  with_new_token-Kept k m v h =
      elim (Outcome-cases (issue_unique_token encode m.sess.members m.rand).0) [
        | inl (t, e) ↦ rw e (
            h t (issue_unique_token encode m.sess.members m.rand).1
              (issue_unique_token-unused encode m.sess.members m.rand e))
        | inr (f, e) ↦ rw e (refl, v)
      ]

  join_check_lem :
      (name : String) (m : Manager S)
      → join_check encode C S name m ≡ none
      → (any (λ (e : PlayerId × Member). e.1.name === name) m.sess.members ≡ false)
        × (leb_ℤ m.opts.max_lobby_size (pos (length m.sess.members)) ≡ false)
  unfolding join_check
  join_check_lem name m h = ground arith

  -- A join, accepted or refused, keeps the lobby: if names and tokens differ and the lobby has no more
  -- members than its limit, which is at least one, then it is so afterwards.
  pub join_player-IsLobby :
      (id : PlayerId) (name : String) (m : Manager S)
      → IsLobby m.opts.max_lobby_size m.sess.members
      → let m' = (join_player encode C S id name m).0 in
        (m'.opts ≡ m.opts) × IsLobby m.opts.max_lobby_size m'.sess.members
  unfolding join_player
  join_player-IsLobby id name m v = elim (Option-cases (join_check encode C S name m)) [
    | inr (f, h) ↦ rw (h, join_player) (refl, v)
    | inl h ↦
        let (fresh, room) = join_check_lem name m h in
        rw (h, join_player)
          (with_new_token-Kept (λ t. admit encode C S id name t false) m v
            λ t rest unused.
              admit-Kept id name t false (record m { rand = rest }) v
                (any-Without (λ m. m.name) name m.sess.members fresh) unused (below_limit _ _ room))
  ]

  no_members : (ms : List (PlayerId × Member)) → ltb 0 (length ms) ≡ false → ms ≡ []
  no_members [] h = refl
  no_members (x ∷ ms) h = absurd (ground arith)

  admit_first-Kept :
      (id game_id : PlayerId) (name token : String) (m : Manager S)
      → IsLobby m.opts.max_lobby_size m.sess.members
      → ltb 0 (length m.sess.members) ≡ false
      → token_in_use encode token m.sess.members ≡ false
      → Kept m (
          admit encode C S id name token true
            (record m { sess = record m.sess { game_id = game_id; host_id = id } }))
  unfolding Without
  admit_first-Kept id game_id name token m v none_yet unused =
      let empty = no_members m.sess.members none_yet in
      admit-Kept id name token true
        (record m { sess = record m.sess { game_id = game_id; host_id = id } }) v (rw empty tt)
        unused (rw empty v.room)

  create_check_lem :
      (name : String) (m : Manager S)
      → create_check encode C S name m ≡ none
      → ltb 0 (length m.sess.members) ≡ false
  unfolding create_check
  create_check_lem name m h = ground arith

  -- A new session, created or refused, keeps the lobby in the same way.
  pub create_session-IsLobby :
      (id : PlayerId) (game_id name : String) (m : Manager S)
      → IsLobby m.opts.max_lobby_size m.sess.members
      → let m' = (create_session encode C S id game_id name m).0 in
        (m'.opts ≡ m.opts) × IsLobby m.opts.max_lobby_size m'.sess.members
  unfolding create_session
  create_session-IsLobby id game_id name m v =
      elim (Option-cases (create_check encode C S name m)) [
        | inr (f, h) ↦ rw (h, create_session) (refl, v)
        | inl h ↦
            rw (h, create_session)
              (with_new_token-Kept
                (λ t m.
                  admit encode C S id name t true
                    (record m { sess = record m.sess { game_id = game_id; host_id = id } }))
                m v
                λ t rest unused.
                  admit_first-Kept id game_id name t (record m { rand = rest }) v
                    (create_check_lem name m h) unused)
      ]
