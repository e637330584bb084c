-- ===== src/Announce/Bundled/Public.antt =====
-- What is announced to all is for all.
use mafia_game_party.Prelude.{
  ℕ, ℤ, false, some, List, String, get_elem?, PlayerId, ◌≡◌, refl, ap, ◌∙◌, id_dec,
}
use mafia_game_party.Game.Event.{
  Visibility, Event, EventEnvelope, role_revealed_to_player, mafia_cohort_revealed,
  mafia_target_selected, mafia_representative_reassigned, police_result,
}
use mafia_game_party.Game.Error.{FieldError}
use mafia_game_party.Game.Rand.{Rng}
use mafia_game_party.Game.Audience.{audience}
use mafia_game_party.Game.Run.Emits.{Emits, Emits-audience}
use mafia_game_party.Announce.{is_empty, CatalogContext, Catalog}
use mafia_game_party.Announce.Bundled.{render_event, default_catalog}

module _ (decimal : ℤ → String) (field_message : FieldError → String) where
  abbrev bundled : Catalog
  bundled = default_catalog decimal field_message

  heard_by_all :
      (ev : Event) (ctx : CatalogContext)
      → is_empty (render_event decimal field_message ev ctx) ≡ false
      → (audience ev).0 ≡ Visibility.public
  unfolding audience render_event is_empty id_dec
  heard_by_all (role_revealed_to_player i r k) ctx h = cc
  heard_by_all (mafia_cohort_revealed is rep) ctx h = cc
  heard_by_all (mafia_target_selected rep target) ctx h = cc
  heard_by_all (mafia_representative_reassigned old new) ctx h = cc
  heard_by_all (police_result police target team) ctx h = cc
  heard_by_all _ ctx h = refl

  -- If the engine makes an envelope and the bundled catalog has an announcement for it, the envelope
  -- is public: no announcement follows from an event that is for one player or for the mafia.
  pub announced_is_public :
      (R : Rng) (events : List EventEnvelope) (k : ℕ) (env : EventEnvelope) (ctx : CatalogContext)
      → Emits R events
      → get_elem? events k ≡ some env
      → is_empty (bundled.render env ctx) ≡ false
      → env.visibility ≡ Visibility.public
  unfolding default_catalog
  announced_is_public R events k env ctx m h n =
      ap (λ (x : Visibility × PlayerId). x.0) (Emits-audience R events k env m h)
      ∙ heard_by_all env.event ctx n
