-- ===== src/Lib.antt =====
-- A server for the party game Mafia: a verification development for the repository's Go code.
--
-- The program. internal/game is the domain core: an engine that owns the state of one game, changes
-- it by three calls (Start, Apply with an action of a player or the host, Tick with a time), and
-- answers with events. Around it stand internal/session (members, tokens, the host's seat, saving and
-- announcing), internal/announce (texts and audio cues), internal/persistence (an SQLite store),
-- internal/transport (HTTP and WebSocket), cmd/mafia-game, which wires them, and a web frontend.
--
-- The files. Each module under Game models the file of internal/game that its first line names:
--   Types, State, Event, Error   types.go, event.go, action.go, error.go: data and queries
--   Validation                   validation.go: the option rules and the guards of the handlers
--   Rand, Keyword, Role          rand.go, keyword.go and its loader and words, role.go: the deal
--   Engine, Start, Apply         engine.go, apply.go and handleStartGame
--   Lifecycle                    handlers_lifecycle.go: introductions, voice, pause, forced end
--   Night, NightAction, End      resolve_night.go, handlers_night.go, end.go
--   Vote                         handlers_day_vote.go, tally.go
--   Tick                         tick.go
--   Run                          sequences of the calls that the engine receives
-- Invariant states what holds between two calls and that every operation keeps it. The other child
-- modules hold the theorems about their parent. Prelude has what all share: tests, lists, maps as
-- association lists, 64-bit integers, time. Examples applies the theorems to concrete games.
--
-- Each module under Session models a file of internal/session:
--   Types                        types.go and the fields of the manager
--   HostAuthority, HostOptions   host_authority.go, host_options.go: the seat and its saved options
--   Token, View                  token.go, view.go: tokens, and what a player may see
--   Members, Lifecycle           lifecycle.go: joining, resuming, rooms, the start of a game
--   Dispatch, Action             action.go, tick.go: a running game, saving and telling
--   Boot                         session.go: restart, subscribers, snapshots, close
-- Each module under Ws models files of internal/transport/ws:
--   Protocol                     protocol.go and the payloads of dispatch.go
--   Registry                     client.go: the clients and their three indices
--   Route                        dispatch.go, writer.go: which client gets what
--   Hub, Handler                 hub.go, handlers.go: connections, messages, answers
-- Announce and Persistence have the data and the interfaces of internal/announce and
-- internal/persistence, and their children the implementations:
--   Announce/Texts, Bundled      catalog_data.go, catalog_default.go, error.go: texts and cues
--   Persistence/Database         what is used of database/sql, the files and encoding/json
--   Persistence/Sqlite           sqlite_store.go, schema.go, recovery.go: the store
-- Http models internal/transport/http: the configuration, the results of finished games, the printed
-- addresses (server.go, api_results.go, lan.go) and, in Http/Routes, the routes and the access log.
-- Command models cmd/mafia-game/main.go: the start of a process on an opened store, and its end.
-- Game/Audience has, for each event, whom it is for. The hub calls the manager, which calls the
-- engine; what the engine answers is saved, announced, and told to the manager's subscribers, of which
-- the hub is one.
--
-- The correspondence. Function names are the Go names in lower case. A method of the engine takes the
-- engine and gives the engine that it leaves with its events or its error (Engine.Method); the state
-- that it returns is a copy of the one that it leaves, but for Tick (Game.Tick.tick_state). The fields
-- of an Engine are the game's state, the reading of the clock during the call, the bytes that the
-- random source still delivers, and the keyword pool. A Go map is an association list with one entry
-- for a key, a pointer an Option, an early return a guard in a do block. math/rand is the record Rng:
-- a shuffle permutes, and Intn(n) draws a number below n.
--
-- The manager and the hub are values that a call takes and gives back. A mutex makes every call of the
-- manager one step; goroutines of the hub are steps of their own, a round of the loop that writes a
-- client's messages (Ws.Route.write_next) among them. The store and the catalog are
-- records of operations (Store, Catalog), whose documented laws are hypotheses. Ids and tokens that
-- crypto/rand draws, and the hexadecimal encoding, are arguments. The database is a record of its
-- operations (Database) with what SQL, SQLite's transactions and the file system document as
-- hypotheses (IsSql, IsKeptOpen); the encoding to JSON is another (Json), with the hypothesis that
-- decoding gives back what was encoded (DecodesBack). The registry's maps share pointers to clients,
-- so the clients stand in a store under their ids and the maps hold ids. A message of a client is an
-- argument that is decoded already.
--
-- Integers, bounds and fuel. The int fields of the options are signed; their sums, differences and
-- products wrap around at 64 bits. Counters that start at 0 and only grow are natural numbers. An
-- instant is a number of nanoseconds from the zero time on. The loop of the introductions has one round
-- more of fuel than there are players, the loop of the night's steps four: each round moves on to a
-- later player or step, so that more rounds change nothing.
--
-- Not modelled: the developers' texts of errors (the message of a field error is an argument of the
-- catalog, as is the printing of a number), the text of JSON, logging; the deep copies of Clone, since
-- values have no aliases; strings outside the constants of an enumeration; panics of subscribers. Left
-- out as input and output: the files that internal/transport/http serves and its timeouts, the flags
-- and the terminal in cmd/mafia-game, sockets, heartbeats and deadlines, and the web frontend.
pub mod Prelude
pub mod Game
pub mod Announce
pub mod Persistence
pub mod Session
pub mod Ws
pub mod Http
pub mod Command
pub mod Examples
