-- ===== src/Game/Invariant/Players.antt =====
-- The queries of the player list, and what a death does to them (types.go).
use mafia_game_party.Prelude.{
  ℕ, zero, suc, ◌<◌, ◌≤◌, Bool, true, false, Option, none, some, List, [], ◌∷◌, All, length, get_or,
  PlayerId, nobody, ◌≡◌, refl, ◌≢◌, arith,
}
use mafia_game_party.Game.State.{
  Player, find_player, kill, is_live_mafia, live_mafia_count, living_mafia_ids,
}

abbrev pub ids : List Player → List PlayerId
ids [] = []
ids (p ∷ ps) = p.id ∷ ids ps

abbrev pub Distinct : List PlayerId → Type 0
Distinct [] = Unit
Distinct (i ∷ is) = All (λ j. j ≢ i) is × Distinct is

abbrev is_leader : Option Player → Bool
is_leader none = false
is_leader (some p) = is_live_mafia p

-- The player with the id is a living mafia.
unfoldable pub leads : PlayerId → List Player → Bool
leads i ps = is_leader (find_player i ps)

abbrev is_found : Option Player → Bool
is_found none = false
is_found (some p) = true

unfoldable pub is_known : PlayerId → List Player → Bool
is_known i ps = is_found (find_player i ps)

-- A death changes no id.
pub ids-kill : (i : PlayerId) (ps : List Player) → ids (kill i ps) ≡ ids ps
unfolding kill
ids-kill i [] = refl
ids-kill i (p ∷ ps) = ground (arith, ids-kill i ps)

-- A death leaves the other players' lead as it is.
pub leads-kill_ne : (i j : PlayerId) (ps : List Player) → i ≢ j → leads j (kill i ps) ≡ leads j ps
unfolding leads kill find_player
leads-kill_ne i j [] h = refl
leads-kill_ne i j (p ∷ ps) h = ground (arith, leads-kill_ne i j ps h)

pub is_known-kill : (i j : PlayerId) (ps : List Player) → is_known j (kill i ps) ≡ is_known j ps
unfolding is_known kill find_player
is_known-kill i j [] = refl
is_known-kill i j (p ∷ ps) = ground (arith, is_known-kill i j ps)

pub live_mafia_count-kill :
    (i : PlayerId) (ps : List Player) → live_mafia_count (kill i ps) ≤ live_mafia_count ps
unfolding live_mafia_count kill
live_mafia_count-kill i [] = omega arith
live_mafia_count-kill i (p ∷ ps) = ground (arith, live_mafia_count-kill i ps)

pub length-living_mafia_ids :
    (ps : List Player) → length (living_mafia_ids ps) ≡ live_mafia_count ps
unfolding living_mafia_ids live_mafia_count
length-living_mafia_ids [] = refl
length-living_mafia_ids (p ∷ ps) = ground (arith, length-living_mafia_ids ps)

living-All :
    (i : PlayerId) (ps : List Player)
    → All (λ j. j ≢ i) (ids ps)
    → All (λ j. j ≢ i) (living_mafia_ids ps)
unfolding living_mafia_ids
living-All i [] h = tt
living-All i (p ∷ ps) h = ground (arith, living-All i ps h.1)

All-get_or :
    (i : PlayerId) (js : List PlayerId) (k : ℕ)
    → All (λ j. j ≢ i) js
    → k < length js
    → get_or js k nobody ≢ i
All-get_or i [] k h lt = absurd (omega arith)
All-get_or i (j ∷ js) zero h lt = h.0
All-get_or i (j ∷ js) (suc k) h lt = All-get_or i js k h.1 (omega arith)

leads-cons_ne :
    (j : PlayerId) (p : Player) (ps : List Player) → j ≢ p.id → leads j (p ∷ ps) ≡ leads j ps
unfolding leads find_player
leads-cons_ne j p ps h = ground arith

leads-cons_self : (p : Player) (ps : List Player) → leads p.id (p ∷ ps) ≡ is_live_mafia p
unfolding leads find_player
leads-cons_self p ps = ground arith

leads-get_or_tail :
    (p : Player) (ps : List Player) (k : ℕ)
    → Distinct (ids (p ∷ ps))
    → k < length (living_mafia_ids ps)
    → leads (get_or (living_mafia_ids ps) k nobody) ps ≡ true
    → leads (get_or (living_mafia_ids ps) k nobody) (p ∷ ps) ≡ true
leads-get_or_tail p ps k d h ih =
    rw (leads-cons_ne _ p ps (All-get_or p.id _ k (living-All p.id ps d.0) h)) ih

-- Every entry of the list of living mafia leads, where ids are distinct.
pub leads-get_or :
    (ps : List Player) (k : ℕ)
    → Distinct (ids ps)
    → k < length (living_mafia_ids ps)
    → leads (get_or (living_mafia_ids ps) k nobody) ps ≡ true
unfolding living_mafia_ids
leads-get_or [] k d h = absurd (omega arith)
leads-get_or (p ∷ ps) zero d h =
    ground (arith, leads-cons_self p ps, leads-get_or_tail p ps 0 d, leads-get_or ps 0 d.1)
leads-get_or (p ∷ ps) (suc k) d h = ground (
  arith,
  leads-get_or_tail p ps k d,
  leads-get_or ps k d.1,
  leads-get_or_tail p ps (suc k) d,
  leads-get_or ps (suc k) d.1,
)
