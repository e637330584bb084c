-- ===== src/Persistence.antt =====
-- internal/persistence/store.go: what the store keeps, and the store as the interface that the
-- session uses.
pub mod Database
pub mod Sqlite
use mafia_game_party.Prelude.{Bool, true, Option, List, String, PlayerId, ℤ, ◌≡◌}
use mafia_game_party.Prelude.Time.{Time}
use mafia_game_party.Game.Types.{Team, EndReason, Options}
use mafia_game_party.Game.State.{Player, State}
use mafia_game_party.Game.Event.{EventEnvelope}

pub record PersistedMember : Type 0 where
  pub id : PlayerId
  pub name : String
  pub token : String
  pub connected : Bool
  pub joined_at : Time

pub record Snapshot : Type 0 where
  pub game_id : String
  pub state : State
  pub members : List PersistedMember
  pub host_id : PlayerId

pub record GameResult : Type 0 where
  pub game_id : String
  pub started_at : Time
  pub ended_at : Time
  pub winner : Option Team
  pub end_reason : EndReason
  pub options : Options
  pub members : List PersistedMember
  pub reveal : List Player

-- The three results of `LoadActiveSnapshot`.
pub data Loaded : Type 0 where
  load_failed : Loaded
  nothing : Loaded
  found : Snapshot → Loaded

-- `PersistenceStore`. A write gives the disk that it leaves and whether it succeeded.
pub record Store : Type 1 where
  pub Disk : Type 0
  pub save_snapshot : Snapshot → Disk → Disk × Bool
  pub load_active_snapshot : Disk → Loaded
  pub delete_active_snapshot : Disk → Disk × Bool
  pub save_result_and_clear_active : GameResult → Disk → Disk × Bool
  pub list_results : ℤ → Disk → Option (List GameResult)
  pub append_event : String → EventEnvelope → Disk → Disk × Bool
  pub archive_corrupt : Disk → Disk × Bool
  pub close : Disk → Disk × Bool

-- What the interface documents of a write that succeeds: the snapshot is the active one, and a
-- result clears it.
pub record IsDurable (S : Store) : Type 0 where
  pub load-save :
      (snap : Snapshot) (d : S.Disk)
      → (S.save_snapshot snap d).1 ≡ true
      → S.load_active_snapshot (S.save_snapshot snap d).0 ≡ found snap
  pub load-clear :
      (r : GameResult) (d : S.Disk)
      → (S.save_result_and_clear_active r d).1 ≡ true
      → S.load_active_snapshot (S.save_result_and_clear_active r d).0 ≡ nothing
