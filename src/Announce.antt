-- ===== src/Announce.antt =====
-- internal/announce/catalog.go: an announcement, and the catalog as the interface that the session
-- uses.
pub mod Texts
pub mod Bundled
use mafia_game_party.Prelude.{Bool, false, String, PlayerId, ℤ, ◌===◌}
use mafia_game_party.Game.Event.{EventEnvelope}
use mafia_game_party.Game.Error.{Failure}

pub data Severity : Type 0 where
  unset info emphasis warn : Severity

pub record Announcement : Type 0 where
  pub subtitle : String
  pub audio_id : String
  pub severity : Severity
  pub for_public_only : Bool

-- `Announcement{}`
abbrev pub no_announcement : Announcement
no_announcement = record {
  subtitle = "";
  audio_id = "";
  severity = Severity.unset;
  for_public_only = false;
}

unfoldable pub is_empty : Announcement → Bool
is_empty a = a.subtitle === ""

-- `CatalogContext`: a name for every id, and the seconds of an introduction.
pub record CatalogContext : Type 0 where
  pub get_name : PlayerId → String
  pub intro_seconds_per_player : ℤ

-- `AnnouncementCatalog`, with the two announcements of the system (`SystemRestore` and
-- `SystemPersistFailure`).
pub record Catalog : Type 0 where
  pub render : EventEnvelope → CatalogContext → Announcement
  pub render_error : Failure → PlayerId → CatalogContext → Announcement
  pub system_restore : Announcement
  pub system_persist_failure : Announcement
