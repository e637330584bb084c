-- ===== src/Game/Vote/Top.antt =====
-- The leading candidates (tally.go): the loop over the players finds the largest count and all who
-- have it.
use mafia_game_party.Prelude.{
  ℕ, ◌<◌, List, [], ◌∷◌, ◌++◌, PlayerId, lookup_or, ◌==◌, ltb, if◌then◌else◌, ◌≡◌, refl, arith,
}
use mathlib.Core.List.{append_assoc}
use mafia_game_party.Game.State.{Player}
use mafia_game_party.Game.Vote.{Counts, top_loop, top_candidates}

abbrev larger : ℕ → ℕ → ℕ
larger a b = if ltb a b then b else a

-- The largest count of a player.
unfoldable pub greatest : List (PlayerId × ℕ) → List Player → ℕ
greatest counts [] = 0
greatest counts (p ∷ ps) = larger (lookup_or 0 p.id counts) (greatest counts ps)

-- The players whose count is `n`, in their order.
unfoldable pub holders : List (PlayerId × ℕ) → ℕ → List Player → List PlayerId
holders counts n [] = []
holders counts n (p ∷ ps) =
    let rest = holders counts n ps in if lookup_or 0 p.id counts == n then p.id ∷ rest else rest

pub holders_above :
    (counts : Counts) (n : ℕ) (ps : List Player) → greatest counts ps < n → holders counts n ps ≡ []
unfolding holders greatest
holders_above counts n [] h = refl
holders_above counts n (p ∷ ps) h = ground (arith, holders_above counts n ps)

-- What the loop makes of players whose largest count is `m`, from the state that it has.
abbrev merged : ℕ → List PlayerId → ℕ → Counts → List Player → ℕ × List PlayerId
merged best top m counts ps =
    if ltb best m
    then (m, holders counts m ps)
    else if m == 0
    then (best, top)
    else if m == best
    then (best, top ++ holders counts best ps)
    else (best, top)

module _ (counts : Counts) (p : Player) (ps : List Player) (best : ℕ) (top : List PlayerId) where
  zero_step :
      lookup_or 0 p.id counts ≡ 0
      → merged best top (greatest counts ps) counts ps
        ≡ merged best top (greatest counts (p ∷ ps)) counts (p ∷ ps)
  unfolding greatest holders
  zero_step h = ground arith

  lower_step :
      lookup_or 0 p.id counts < best
      → merged best top (greatest counts ps) counts ps
        ≡ merged best top (greatest counts (p ∷ ps)) counts (p ∷ ps)
  unfolding greatest holders
  lower_step h = ground arith

  higher_step :
      best < lookup_or 0 p.id counts
      → merged (lookup_or 0 p.id counts) (p.id ∷ []) (greatest counts ps) counts ps
        ≡ merged best top (greatest counts (p ∷ ps)) counts (p ∷ ps)
  unfolding greatest holders
  higher_step h = ground (arith, holders_above counts (lookup_or 0 p.id counts) ps)

  equal_step :
      lookup_or 0 p.id counts ≡ best
      → 0 < best
      → merged best (top ++ p.id ∷ []) (greatest counts ps) counts ps
        ≡ merged best top (greatest counts (p ∷ ps)) counts (p ∷ ps)
  unfolding greatest holders
  equal_step h pos =
      ground
        (arith, holders_above counts best ps, append_assoc top (p.id ∷ []) (holders counts best ps))

top_loop_lem :
    (counts : Counts) (ps : List Player) (best : ℕ) (top : List PlayerId)
    → top_loop counts ps (best, top) ≡ merged best top (greatest counts ps) counts ps
unfolding top_loop
top_loop_lem counts [] best top = unfold greatest in ground arith
top_loop_lem counts (p ∷ ps) best top = ground (
  arith,
  zero_step counts p ps best top,
  lower_step counts p ps best top,
  higher_step counts p ps best top,
  equal_step counts p ps best top,
  top_loop_lem counts ps best top,
  top_loop_lem counts ps (lookup_or 0 p.id counts) (p.id ∷ []),
  top_loop_lem counts ps best (top ++ p.id ∷ []),
)

-- The tally's leading candidates are all the players with the largest count, in the order of the
-- players, and nobody where no player has a count above 0; its maximum is that count.
pub top_candidates_lem :
    (counts : List (PlayerId × ℕ)) (ps : List Player)
    → top_candidates counts ps ≡ (
      greatest counts ps,
      (if greatest counts ps == 0 then [] else holders counts (greatest counts ps) ps),
    )
unfolding top_candidates
top_candidates_lem counts ps = ground (arith, top_loop_lem counts ps 0 [])
