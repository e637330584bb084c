-- ===== src/Session/Lifecycle.antt =====
-- internal/session/lifecycle.go: how members come, and how a room opens, starts and closes. The
-- results of `newID`, which the random source makes, are arguments.
pub mod Lobby
pub mod Ids
use mafia_game_party.Prelude.{
  ℕ, Bool, true, false, not, ◌&&◌, Option, none, some, List, [], ◌∷◌, map, String, PlayerId, nobody,
  ◌===◌, if◌then◌else◌, length, ltb, any, insert, ℤ, pos, ltb_ℤ, leb_ℤ,
}
use mafia_game_party.Prelude.Time.{zero_time}
use mafia_game_party.Game.Types.{Role, Team, Phase, Options}
use mafia_game_party.Game.State.{Player, State, no_options, zero_state}
use mafia_game_party.Game.Event.{EventEnvelope, public_event, player_joined, force_end_game}
use mafia_game_party.Game.Error.{ErrorCode, Failure, engine_error, errf}
use mafia_game_party.Game.Validation.{require}
use mafia_game_party.Game.Rand.{Rng}
use mafia_game_party.Game.Engine.{Engine, Result, ok, err}
use mafia_game_party.Game.Start.{start, restore}
use mafia_game_party.Game.Apply.{apply}
use mafia_game_party.Announce.{Catalog}
use mafia_game_party.Persistence.{Store}
use mafia_game_party.Session.Types.{
  Member, Session, JoinResult, EventOut, Outcome, done, fault, rejected, Fault, Manager, Call, ◌>>◌,
}
use mafia_game_party.Session.HostAuthority.{claim, verify, release}
use mafia_game_party.Session.Token.{issue_unique_token}
use mafia_game_party.Session.Members.{order_members, players_of, lobby_state}
use mafia_game_party.Session.View.{build_private_view}
use mafia_game_party.Session.Dispatch.{persist_and_dispatch}

-- An error with a field, as the literals of `EngineError` have it.
abbrev pub field_error : String → Failure
field_error field = engine_error ErrorCode.validation field

-- The checks before a call: the first that fails decides.
abbrev first_failure : List (Option Failure) → Option Failure
first_failure [] = none
first_failure (none ∷ rest) = first_failure rest
first_failure (some f ∷ rest) = some f

abbrev new_member : PlayerId → String → String → ℕ → Member
new_member id name token now = record {
  id = id;
  name = name;
  token = token;
  connected = true;
  joined_at = now;
}

-- What a member that has just come sees: roles are not dealt yet.
abbrev joined_result : PlayerId → String → Bool → State → JoinResult
joined_result id token is_host lobby = record {
  player_id = id;
  token = token;
  is_host = is_host;
  current_state = lobby;
  your_role = Role.unset;
  your_keyword = "";
  your_team = Team.unset;
  mafia_cohort = [];
}

-- `Session{Members: make(map…)}`
abbrev pub no_session : Session
no_session = record {
  game_id = "";
  members = [];
  host_id = nobody;
  started = false;
  started_at = zero_time;
  pending_options = no_options;
  room_opened = false;
}

-- The first member with the token, and the members with that one connected.
unfoldable pub member_by_token : String → List (PlayerId × Member) → Option Member
member_by_token t [] = none
member_by_token t ((id, m) ∷ members) = if m.token === t then some m else member_by_token t members

unfoldable pub connect : String → List (PlayerId × Member) → List (PlayerId × Member)
connect t [] = []
connect t ((id, m) ∷ members) =
    if m.token === t
    then (id, record m { connected = true }) ∷ members
    else (id, m) ∷ connect t members

module _ (encode : List ℕ → String) (C : Catalog) (S : Store) where
  -- The member is in: the lobby as it is now, saved and announced.
  unfoldable pub admit : PlayerId → String → String → Bool → Call S JoinResult
  admit id name token is_host m =
      let members = insert id (new_member id name token m.clock) m.sess.members in
      let lobby = lobby_state m.sess.game_id m.sess.host_id members in
      let (m', outs) =
        persist_and_dispatch C S lobby (public_event (player_joined id name) ∷ [])
          (record m { sess = record m.sess { members = members } }) in
      (m', done (joined_result id token is_host lobby))

  abbrev pub with_token : Outcome String → (String → Call S JoinResult) → Call S JoinResult
  with_token (done t) k = k t
  with_token (fault f) k = λ m. (m, fault f)

  -- Draw a token; the bytes that are read stay read.
  unfoldable pub with_new_token : (String → Call S JoinResult) → Call S JoinResult
  with_new_token k m =
      let (t, rest) = issue_unique_token encode m.sess.members m.rand in
      with_token t k (record m { rand = rest })

  unfoldable pub create_check : String → Manager S → Option Failure
  create_check name m = first_failure (
      require (not (name === "")) (field_error "hostName")
      ∷ require (not m.sess.started) (errf ErrorCode.wrong_phase)
      ∷ require (not (ltb 0 (length m.sess.members))) (errf ErrorCode.wrong_phase)
      ∷ [])

  unfoldable pub create_session : PlayerId → String → String → Call S JoinResult
  create_session host_id game_id name m =
      (do
        create_check name m
        with_new_token (λ t m.
            admit host_id name t true
              (record m { sess = record m.sess { game_id = game_id; host_id = host_id } })))
        m

  unfoldable pub join_check : String → Manager S → Option Failure
  join_check name m = first_failure (
      require (not (name === "")) (field_error "name")
      ∷ require (not m.sess.started) (errf ErrorCode.wrong_phase)
      ∷ require (not (not (ltb 0 (length m.sess.members)) && not m.sess.room_opened))
          (errf ErrorCode.wrong_phase)
      ∷ require (not (leb_ℤ m.opts.max_lobby_size (pos (length m.sess.members))))
          (field_error "lobby")
      ∷ require (not (any (λ e. e.1.name === name) m.sess.members)) (field_error "name")
      ∷ [])

  unfoldable pub join_player : PlayerId → String → Call S JoinResult
  join_player id name m = (do join_check name m; with_new_token (λ t. admit id name t false)) m

module _ (S : Store) where
  abbrev pub resumed : String → Option Member → Call S JoinResult
  resumed t none m = (m, fault (rejected (errf ErrorCode.unknown_player)))
  resumed t (some member) m =
      let view = build_private_view m.engine.state member.id m.sess.host_id in
      (
        record m { sess = record m.sess { members = connect t m.sess.members } },
        done (record {
          player_id = member.id;
          token = t;
          is_host = member.id === m.sess.host_id;
          current_state = view.state;
          your_role = view.your_role;
          your_keyword = view.your_keyword;
          your_team = view.your_team;
          mafia_cohort = view.mafia_cohort;
        }),
      )

  unfoldable pub resume_player : String → Call S JoinResult
  resume_player t m =
      (do
        require (not (t === "")) (field_error "token")
        resumed t (member_by_token t m.sess.members))
        m

  unfoldable pub claim_host : Option String → Manager S → Manager S × Result String
  claim_host draw m = let (host, r) = claim draw m.host in (record m { host = host }, r)

  unfoldable pub release_host : String → Manager S → Manager S
  release_host t m = record m { host = release t m.host }

  -- `Restore` of a lobby does not fail. `none` is success.
  unfoldable pub host_close_room : String → Call S Unit
  host_close_room token m =
      (do
        verify token m.host
        λ m. (
          record m {
            engine = (restore (record zero_state { phase = Phase.lobby }) m.engine).0;
            sess = no_session;
          },
          done tt,
        ))
        m

module _ (R : Rng) (C : Catalog) (S : Store) where
  abbrev pub begun : Engine × Result (List EventEnvelope) → Call S (List EventOut)
  begun (e, err f) m = (record m { engine = e }, fault (rejected f))
  begun (e, ok envs) m =
      let sess = record m.sess { started = true; started_at = e.state.started_at } in
      let (m', outs) =
        persist_and_dispatch C S e.state envs (record m { engine = e; sess = sess }) in
      (m', done outs)

  -- the end of both starts
  unfoldable pub begin_with : PlayerId → Options → Call S (List EventOut)
  begin_with host o m =
      begun
        (start R m.sess.game_id host (players_of (order_members m.sess.members host)) o m.engine) m

  unfoldable pub start_game : PlayerId → Options → Call S (List EventOut)
  start_game host o m =
      (do
        require (not m.sess.started) (errf ErrorCode.wrong_phase)
        require (host === m.sess.host_id) (errf ErrorCode.permission_denied)
        require (not (ltb_ℤ (pos (length m.sess.members)) m.opts.min_players))
            (field_error "members")
        begin_with host o)
        m

  unfoldable pub open_room : String → String → Options → Call S State
  open_room game_id token o m =
      (do
        verify token m.host
        require (not m.sess.started) (errf ErrorCode.wrong_phase)
        require (not (ltb 0 (length m.sess.members))) (errf ErrorCode.wrong_phase)
        λ m.
            let sess = record m.sess {
              game_id = game_id;
              host_id = nobody;
              members = [];
              pending_options = o;
              room_opened = true;
            } in
            let lobby = lobby_state game_id nobody [] in
            let (m', outs) = persist_and_dispatch C S lobby [] (record m { sess = sess }) in
            (m', done lobby))
        m

  unfoldable pub host_start_game : String → Call S (List EventOut)
  host_start_game token m =
      (do
        verify token m.host
        require (not m.sess.started) (errf ErrorCode.wrong_phase)
        require m.sess.room_opened (errf ErrorCode.wrong_phase)
        require (not (ltb_ℤ (pos (length m.sess.members)) m.opts.min_players))
            (field_error "members")
        begin_with nobody m.sess.pending_options)
        m

  abbrev pub progressed : Engine × Result (List EventEnvelope) → Call S (List EventOut)
  progressed (e, err f) m = (record m { engine = e }, fault (rejected f))
  progressed (e, ok envs) m =
      let (m', outs) = persist_and_dispatch C S e.state envs (record m { engine = e }) in
      (m', done outs)

  unfoldable pub host_force_terminate : String → Call S (List EventOut)
  host_force_terminate token m =
      (do
        verify token m.host
        require m.sess.started (errf ErrorCode.wrong_phase)
        λ m. progressed (apply R (force_end_game m.engine.state.host_id) m.engine) m)
        m
