-- ===== src/Game/Audience.antt =====
-- For whom an event of the engine is: event.go says it in words, and each handler by the envelope
-- that it makes.
use mafia_game_party.Prelude.{List, [], ◌∷◌, ◌++◌, PlayerId, nobody, ◌≡◌}
use mafia_game_party.Game.Event.{
  Visibility, Event, EventEnvelope, role_revealed_to_player, mafia_cohort_revealed,
  mafia_target_selected, mafia_representative_reassigned, police_result,
}
use mafia_game_party.Game.Engine.{Result, ok, err}

-- Who is meant to learn of an event: the player in question, the mafia, or all.
unfoldable pub audience : Event → Visibility × PlayerId
audience (role_revealed_to_player i r k) = (Visibility.player, i)
audience (police_result police target team) = (Visibility.player, police)
audience (mafia_cohort_revealed is rep) = (Visibility.role_mafia, nobody)
audience (mafia_target_selected rep target) = (Visibility.role_mafia, nobody)
audience (mafia_representative_reassigned old new) = (Visibility.role_mafia, nobody)
audience _ = (Visibility.public, nobody)

-- Every envelope is addressed to its event's audience.
unfoldable pub Addressed : List EventEnvelope → Type 0
Addressed [] = Unit
Addressed (env ∷ envs) = ((env.visibility, env.player_id) ≡ audience env.event) × Addressed envs

unfoldable pub IsAddressed : Result (List EventEnvelope) → Type 0
IsAddressed (ok envs) = Addressed envs
IsAddressed (err f) = Unit

pub Addressed-append :
    (xs ys : List EventEnvelope) → Addressed xs → Addressed ys → Addressed (xs ++ ys)
unfolding Addressed
Addressed-append [] ys p q = q
Addressed-append (x ∷ xs) ys p q = (p.0, Addressed-append xs ys p.1 q)
