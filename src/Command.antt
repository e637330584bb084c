-- ===== src/Command.antt =====
-- cmd/mafia-game/main.go: how the process starts and ends. The flags' parser, the log and the texts on
-- the terminal are left out.
pub mod Restart
use mafia_game_party.Prelude.{
  ℕ, ℤ, pos, ltb_ℤ, Bool, true, false, not, ◌||◌, Option, none, some, List, String, ◌===◌,
  if◌then◌else◌,
}
use mafia_game_party.Prelude.Time.{Time}
use mafia_game_party.Game.Engine.{Engine, new_default}
use mafia_game_party.Game.Keyword.Words.{default_keyword_pool}
use mafia_game_party.Announce.{Catalog}
use mafia_game_party.Persistence.Database.{Json, Database}
use mafia_game_party.Persistence.Sqlite.{SqliteStore, sqlite_store}
use mafia_game_party.Persistence.Sqlite.Opening.{open_sqlite}
use mafia_game_party.Session.Types.{SessionOpts, Manager, Outcome, done, fault, Fault}
use mafia_game_party.Session.Boot.{session_new, close}
use mafia_game_party.Ws.Hub.{Hub, hub_new, hub_close}

-- The variable as the environment has it.
unfoldable pub env_str : Option String → String → String
env_str none default = default
env_str (some v) default = if not (v === "") then v else default

abbrev int_or : Option ℤ → ℤ → ℤ
int_or none default = default
int_or (some n) default = n

-- `atoi` is `strconv.Atoi`.
unfoldable pub env_int : (String → Option ℤ) → Option String → ℤ → ℤ
env_int atoi none default = default
env_int atoi (some v) default = if v === "" then default else int_or (atoi v) default

pub data Level : Type 0 where
  debug info warn error : Level

-- `lower` is `strings.ToLower`.
unfoldable pub parse_level : (String → String) → String → Level
parse_level lower s =
    if lower s === "debug"
    then Level.debug
    else if lower s === "warn"
    then Level.warn
    else if lower s === "error"
    then Level.error
    else Level.info

-- The port that `main` accepts.
unfoldable pub is_port : ℤ → Bool
is_port port = not (ltb_ℤ port (pos 1) || ltb_ℤ (pos 65535) port)

-- `SessionOpts{}`
abbrev pub no_opts : SessionOpts
no_opts = record {
  tick_interval = pos 0;
  event_log = false;
  max_lobby_size = pos 0;
  min_players = pos 0;
}

-- Why `run` leaves its `select`.
pub data Stopped : Type 0 where
  listen_failed server_closed signalled : Stopped

module _ (J : Json) (D : Database J.Blob) (C : Catalog) where
  -- What `run` has built when it waits, or the store after an error.
  pub data Startup : Type 0 where
    open_failed : SqliteStore J D → Startup
    session_failed : Fault → SqliteStore J D → Startup
    running : Hub (sqlite_store J D) → Startup

  abbrev pub with_session : Manager (sqlite_store J D) × Outcome (Unit {0}) → Startup
  with_session (m, done x) = running (hub_new m)
  with_session (m, fault f) = session_failed f m.disk

  abbrev pub with_store : Time → List ℕ → List ℕ → SqliteStore J D × Bool → Startup
  with_store now engine_rand token_rand (s, false) = open_failed s
  with_store now engine_rand token_rand (s, true) = with_session (
      session_new C (sqlite_store J D) (new_default default_keyword_pool now engine_rand) s now
        token_rand no_opts)

  -- The first part of `run`. The engine and the session each read the system's source of random bytes.
  unfoldable pub startup : String → Time → List ℕ → List ℕ → D.Db → Startup
  startup path now engine_rand token_rand d =
      with_store now engine_rand token_rand (open_sqlite J D path d)

  -- The hub goes before the manager; errors are only logged.
  unfoldable pub shutdown : Hub (sqlite_store J D) → Hub (sqlite_store J D)
  shutdown h =
      let h' = hub_close h in record h' { manager = (close (sqlite_store J D) h'.manager).0 }

  -- The rest of `run`: it succeeds unless the server could not listen; then nothing is shut down.
  unfoldable pub stop : Stopped → Hub (sqlite_store J D) → Hub (sqlite_store J D) × Bool
  stop listen_failed h = (h, false)
  stop server_closed h = (shutdown h, true)
  stop signalled h = (shutdown h, true)
