-- ===== src/Game/Vote/Count.antt =====
-- The count of the ballots (tally.go), against the number of ballots for each candidate.
use mafia_game_party.Prelude.{
  ℕ, suc, ◌+◌, List, [], ◌∷◌, PlayerId, nobody, ◌===◌, lookup_or, insert, lookup_or-insert, ◌≡◌,
  refl, ◌≢◌, arith, if◌then◌else◌,
}
use mafia_game_party.Game.Vote.{count_votes}

-- The ballots that name the candidate.
unfoldable pub ballots_for : PlayerId → List (PlayerId × PlayerId) → ℕ
ballots_for i [] = 0
ballots_for i ((voter, target) ∷ votes) =
    if target === i then suc (ballots_for i votes) else ballots_for i votes

count_votes-from :
    (i : PlayerId) (votes : List (PlayerId × PlayerId)) (counts : List (PlayerId × ℕ))
    → i ≢ nobody
    → lookup_or 0 i (count_votes votes counts) ≡ lookup_or 0 i counts + ballots_for i votes
unfolding count_votes ballots_for
count_votes-from i [] counts h = omega arith
count_votes-from i ((voter, target) ∷ votes) counts h = ground (
  arith,
  lookup_or-insert 0 target i (suc (lookup_or 0 target counts)) counts,
  count_votes-from i votes counts h,
  count_votes-from i votes (insert target (suc (lookup_or 0 target counts)) counts) h,
)

-- The count of a candidate is the number of the ballots that name it, and an abstention counts for
-- nobody.
pub count_votes_lem :
    (i : PlayerId) (votes : List (PlayerId × PlayerId))
    → i ≢ nobody
    → lookup_or 0 i (count_votes votes []) ≡ ballots_for i votes
unfolding lookup_or
count_votes_lem i votes h = omega (arith, count_votes-from i votes [] h)

count_votes-nobody :
    (votes : List (PlayerId × PlayerId)) (counts : List (PlayerId × ℕ))
    → lookup_or 0 nobody (count_votes votes counts) ≡ lookup_or 0 nobody counts
unfolding count_votes
count_votes-nobody [] counts = refl
count_votes-nobody ((voter, target) ∷ votes) counts = ground (
  arith,
  lookup_or-insert 0 target nobody (suc (lookup_or 0 target counts)) counts,
  count_votes-nobody votes counts,
  count_votes-nobody votes (insert target (suc (lookup_or 0 target counts)) counts),
)

-- How many ballots the player has: those that name nobody are abstentions.
unfoldable pub support : List (PlayerId × PlayerId) → PlayerId → ℕ
unfolding ballots_for
support votes i = if i === nobody then 0 else ballots_for i votes

pub count_votes-support :
    (votes : List (PlayerId × PlayerId)) (i : PlayerId)
    → lookup_or 0 i (count_votes votes []) ≡ support votes i
unfolding support lookup_or
count_votes-support votes i = ground (arith, count_votes_lem i votes, count_votes-nobody votes [])
