-- ===== src/Ws/Route/Audience.antt =====
-- Who receives the engine's events.
use mafia_game_party.Prelude.{
  ℕ, Bool, true, not, ◌&&◌, some, List, PlayerId, ◌===◌, get_elem?, ◌≡◌, refl, ap, ◌∙◌,
}
use mafia_game_party.Game.State.{State}
use mafia_game_party.Game.Event.{
  Visibility, Event, EventEnvelope, role_revealed_to_player, mafia_cohort_revealed,
  mafia_target_selected, mafia_representative_reassigned, police_result,
}
use mafia_game_party.Game.Rand.{Rng}
use mafia_game_party.Game.Audience.{audience}
use mafia_game_party.Game.Run.Emits.{Emits, Emits-audience}
use mafia_game_party.Ws.Protocol.{ClientId}
use mafia_game_party.Ws.Registry.{Client, Registry, is_public, member}
use mafia_game_party.Ws.Registry.Indices.{IsIndexed}
use mafia_game_party.Ws.Route.{route_event}
use mafia_game_party.Ws.Route.Reach.{is_living_mafia, may_see, route_event-reach}

abbrev plays : PlayerId → Client → Bool
plays i c = not (is_public c.kind) && c.player_id === i

abbrev plays_mafia : State → Client → Bool
plays_mafia s c = not (is_public c.kind) && is_living_mafia c.player_id s.players

-- Who learns of an event: of a role its player, of a police result the police who asked, of the
-- mafia's choices the clients that play a living mafia player, of all else everyone, also those
-- that play a dead player.
unfoldable pub learns : Event → State → Client → Bool
learns (role_revealed_to_player i r k) s c = plays i c
learns (police_result police target team) s c = plays police c
learns (mafia_cohort_revealed is rep) s c = plays_mafia s c
learns (mafia_target_selected rep target) s c = plays_mafia s c
learns (mafia_representative_reassigned old new) s c = plays_mafia s c
learns _ s c = true

learns_lem :
    (ev : Event) (s : State) (c : Client)
    → may_see (audience ev).0 (audience ev).1 s c ≡ learns ev s c
unfolding audience may_see learns
learns_lem (role_revealed_to_player i r k) s c = refl
learns_lem _ s c = refl

-- If the engine makes an envelope and the hub's indices agree, then the envelope is sent to exactly
-- these registered clients: one about a player's role or a police result to the client that plays
-- the player it is for, one about the mafia's choices to those that play a living mafia player, and
-- each other one to all, those that play a dead player included.
pub engine_event-reach :
    (R : Rng) (events : List EventEnvelope) (k : ℕ) (env : EventEnvelope) (s : State) (r : Registry)
    (j : ClientId)
    → Emits R events
    → get_elem? events k ≡ some env
    → IsIndexed r
    → member j (route_event env s r) ≡ (member j r.by_id && learns env.event s (r.clients j))
engine_event-reach R events k env s r j m h v =
    let e = Emits-audience R events k env m h in
    let seen = ap (λ (x : Visibility × PlayerId). may_see x.0 x.1 s (r.clients j)) e in
    route_event-reach env s r j v
    ∙ ap (λ b. member j r.by_id && b) (seen ∙ learns_lem env.event s (r.clients j))
