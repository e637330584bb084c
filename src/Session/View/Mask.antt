-- ===== src/Session/View/Mask.antt =====
-- What the private view hides, and what it shows.
use mafia_game_party.Prelude.{
  false, ◌&&◌, Option, some, List, [], ◌∷◌, PlayerId, nobody, ◌===◌, if◌then◌else◌, ◌≡◌, refl, ap,
  sym, ◌∙◌, All, ◌≢◌, ◌⊎◌, arith,
}
use mafia_game_party.Game.Types.{Role, is_role, Phase}
use mafia_game_party.Game.State.{Player, State, find_player}
use mafia_game_party.Game.Invariant.Players.{ids, Distinct}
use mafia_game_party.Session.View.{
  viewer, plays, scrub, restore_self, show_ally, mask_player, mask_players, build_private_view,
}

-- What the viewer `me` with the id `i` may see of the player `p` before the end: all of itself; of the
-- others the name and whether it lives, and the role only where both are of the mafia.
unfoldable pub visible : Option Player → PlayerId → Player → Player
visible me i p =
    if p.id === i then (if i === nobody then record p { role = Role.unset } else p) else record p {
      role = (if plays Role.mafia me && is_role p.role Role.mafia then Role.mafia else Role.unset);
      keyword = "";
    }

unfoldable pub visible_all : Option Player → PlayerId → List Player → List Player
visible_all me i [] = []
visible_all me i (p ∷ ps) = visible me i p ∷ visible_all me i ps

mask_player_lem :
    (i : PlayerId) (original : List Player) (p : Player)
    → find_player p.id original ≡ some p
    → mask_player false (viewer i original) i original p ≡ visible (viewer i original) i p
unfolding mask_player scrub restore_self show_ally visible viewer
mask_player_lem i original p h = ground arith

-- Each player of the second list is what the first has under its id.
unfoldable Found : List Player → List Player → Type 0
Found original [] = Unit
Found original (p ∷ ps) = (find_player p.id original ≡ some p) × Found original ps

Found-later :
    (q : Player) (original ps : List Player)
    → All (λ j. j ≢ q.id) (ids ps)
    → Found original ps
    → Found (q ∷ original) ps
unfolding Found find_player
Found-later q original [] d f = tt
Found-later q original (p ∷ ps) d f = ground (arith, Found-later q original ps d.1 f.1)

find_self : (p : Player) (ps : List Player) → find_player p.id (p ∷ ps) ≡ some p
unfolding find_player
find_self p ps = ground arith

Distinct-Found : (ps : List Player) → Distinct (ids ps) → Found ps ps
unfolding Found
Distinct-Found [] d = tt
Distinct-Found (p ∷ ps) d = (find_self p ps, Found-later p ps ps d.0 (Distinct-Found ps d.1))

mask_players_lem :
    (i : PlayerId) (original ps : List Player)
    → Found original ps
    → mask_players false (viewer i original) i original ps ≡ visible_all (viewer i original) i ps
unfolding mask_players visible_all Found
mask_players_lem i original [] f = refl
mask_players_lem i original (p ∷ ps) f =
    ground (arith, mask_player_lem i original p f.0, mask_players_lem i original ps f.1)

-- Before the end of a game whose players have distinct ids, the view of any viewer has of each player
-- what `visible` says, and the checks of the police only if the viewer is the police.
pub build_private_view-visible :
    (s : State) (i host : PlayerId)
    → Distinct (ids s.players)
    → s.phase ≢ Phase.end
    → let view = build_private_view s i host in
      (view.state.players ≡ visible_all (viewer i s.players) i s.players)
      × (view.state.police_history
          ≡ (if plays Role.police (viewer i s.players) then s.police_history else []))
unfolding build_private_view
build_private_view-visible s i host d n =
    ground (arith, mask_players_lem i s.players s.players (Distinct-Found s.players d))

-- What one viewer sees of two casts is the same where the casts differ in the roles and keywords of
-- players who are neither the viewer nor of the viewer's mafia.
abbrev pub Alike : Option Player → PlayerId → Player → Player → Type 0
Alike me i p q =
    (q.id ≡ p.id)
    × (q.name ≡ p.name)
    × (q.alive ≡ p.alive)
    × ((q ≡ p)
        ⊎ ((p.id ≢ i)
            × (((plays Role.mafia me) ≡ false) ⊎ ((p.role ≢ Role.mafia) × (q.role ≢ Role.mafia)))))

visible-Alike :
    (me : Option Player) (i : PlayerId) (p q : Player)
    → Alike me i p q
    → visible me i q ≡ visible me i p
unfolding visible
visible-Alike me i p q a = ground arith

unfoldable pub AllAlike : Option Player → PlayerId → List Player → List Player → Type 0
AllAlike me i [] [] = Unit
AllAlike me i [] (q ∷ qs) = ⊥
AllAlike me i (p ∷ ps) [] = ⊥
AllAlike me i (p ∷ ps) (q ∷ qs) = Alike me i p q × AllAlike me i ps qs

visible_all-AllAlike :
    (me : Option Player) (i : PlayerId) (ps qs : List Player)
    → AllAlike me i ps qs
    → visible_all me i qs ≡ visible_all me i ps
unfolding visible_all AllAlike
visible_all-AllAlike me i [] [] a = refl
visible_all-AllAlike me i [] (q ∷ qs) a = absurd a
visible_all-AllAlike me i (p ∷ ps) [] a = absurd a
visible_all-AllAlike me i (p ∷ ps) (q ∷ qs) a =
    ground (arith, visible-Alike me i p q a.0, visible_all-AllAlike me i ps qs a.1)

-- Secrecy: before the end, if two states have players with distinct ids, the viewer is the same player
-- in both, and they differ only in the roles and keywords of players that the viewer may not know, then
-- the viewer's view of the players is the same in both.
pub build_private_view-secret :
    (s t : State) (i host : PlayerId)
    → Distinct (ids s.players)
    → Distinct (ids t.players)
    → s.phase ≢ Phase.end
    → t.phase ≢ Phase.end
    → viewer i t.players ≡ viewer i s.players
    → AllAlike (viewer i s.players) i s.players t.players
    → (build_private_view t i host).state.players ≡ (build_private_view s i host).state.players
build_private_view-secret s t i host d d' n n' v a =
    let (seen_t, h_t) = build_private_view-visible t i host d' n' in
    let (seen_s, h_s) = build_private_view-visible s i host d n in
    seen_t
    ∙ ap (λ me. visible_all me i t.players) v
    ∙ visible_all-AllAlike (viewer i s.players) i s.players t.players a
    ∙ sym seen_s
