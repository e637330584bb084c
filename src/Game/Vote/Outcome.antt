-- ===== src/Game/Vote/Outcome.antt =====
-- Whom a vote kills (tally.go): nobody, or the one player with the most ballots.
use mafia_game_party.Prelude.{
  ℕ, zero, suc, ◌≤◌, ◌<◌, true, false, All, ◌≢◌, some, List, [], ◌∷◌, PlayerId, lookup_or, ◌==◌,
  if◌then◌else◌, ◌≡◌, refl, sym, ◌∙◌, ◌⊎◌, inl, inr, arith, Option-cases, id_dec, subst,
}
use mafia_game_party.Game.State.{Player, kill, find_player}
use mafia_game_party.Game.Event.{EventEnvelope, public_event, vote_tallied}
use mafia_game_party.Game.Rand.{Rng}
use mafia_game_party.Game.Engine.{Engine}
use mafia_game_party.Game.Night.{mark_dead}
use mafia_game_party.Game.Night.Successor.{mark_dead-frame}
use mafia_game_party.Game.Vote.{Counts, count_votes, apply_elimination, tally_top, tally}
use mafia_game_party.Game.Vote.Count.{support, count_votes-support}
use mafia_game_party.Game.Vote.Top.{greatest, holders, top_candidates_lem}
use mafia_game_party.Game.Invariant.Players.{ids, Distinct, is_known}
use mafia_game_party.Game.Run.Ages.{end_or_night-players, enter_night-players}

-- The players other than `i` have less than `n`, as `f` counts.
unfoldable pub Behind : (PlayerId → ℕ) → PlayerId → ℕ → List Player → Type 0
Behind f i n [] = Unit
Behind f i n (p ∷ ps) = ((p.id ≡ i) ⊎ (f p.id < n)) × Behind f i n ps

abbrev Trail : Counts → PlayerId → ℕ → List Player → Type 0
Trail counts i n ps = Behind (λ j. lookup_or 0 j counts) i n ps

no_holder :
    (counts : Counts) (i : PlayerId) (n : ℕ) (ps : List Player)
    → greatest counts ps ≤ n
    → holders counts n ps ≡ []
    → Trail counts i n ps
unfolding greatest holders Behind
no_holder counts i n [] h e = tt
no_holder counts i n (p ∷ ps) h e = ground (arith, no_holder counts i n ps)

-- The single holder of the largest count leads all others.
sole_holder :
    (counts : Counts) (i : PlayerId) (n : ℕ) (ps : List Player)
    → greatest counts ps ≤ n
    → holders counts n ps ≡ i ∷ []
    → (lookup_or 0 i counts ≡ n) × Trail counts i n ps
unfolding greatest holders Behind
sole_holder counts i n [] h e = cc
sole_holder counts i n (p ∷ ps) h e =
    ground (arith, sole_holder counts i n ps, no_holder counts i n ps)

sole_top :
    (counts : Counts) (i : PlayerId) (n : ℕ) (ps : List Player)
    → n ≡ greatest counts ps
    → 0 < n
    → (if n == 0 then [] else holders counts n ps) ≡ i ∷ []
    → (lookup_or 0 i counts ≡ n) × Trail counts i n ps
sole_top counts i n ps g pos h = ground (arith, sole_holder counts i n ps)

module _ (R : Rng) where
  apply_elimination-players :
      (i : PlayerId) (events : List EventEnvelope) (e : Engine)
      → ((apply_elimination R i events e).0.state.players ≡ e.state.players)
        ⊎ ((apply_elimination R i events e).0.state.players ≡ kill i e.state.players)
  unfolding apply_elimination
  apply_elimination-players i events e = elim (Option-cases (find_player i e.state.players)) [
    | inl n ↦ rw (n, apply_elimination) (inl refl)
    | inr (p, n) ↦
        rw (n, apply_elimination)
          (rw (end_or_night-players (mark_dead R i e).0) (rw (mark_dead-frame R i e).0 (inr refl)))
  ]

  sole-players :
      (best : ℕ) (i : PlayerId) (counts : Counts) (e : Engine)
      → let players = (tally_top R (best, i ∷ []) counts e).0.state.players in
        (players ≡ e.state.players) ⊎ ((0 < best) × (players ≡ kill i e.state.players))
  unfolding tally_top
  sole-players best i counts e = ground (
    arith,
    enter_night-players e.clock e.state,
    apply_elimination-players i (public_event (vote_tallied counts (some i) false) ∷ []) e,
  )

  tally_top-players :
      (best : ℕ) (top : List PlayerId) (counts : Counts) (e : Engine)
      → let players = (tally_top R (best, top) counts e).0.state.players in
        (players ≡ e.state.players)
        ⊎ ((i : PlayerId) × (top ≡ i ∷ []) × (0 < best) × (players ≡ kill i e.state.players))
  unfolding tally_top
  tally_top-players best [] counts e = inl (ground (arith, enter_night-players e.clock e.state))
  tally_top-players best (i ∷ []) counts e = elim (sole-players best i counts e) [
    | inl same ↦ inl same
    | inr (pos, killed) ↦ inr (i, refl, pos, killed)
  ]
  tally_top-players best (i ∷ j ∷ rest) counts e =
      inl (ground (arith, enter_night-players e.clock e.state))

module _ (counts : Counts) (i : PlayerId) (n : ℕ) where
  Trail-bound :
      (ps : List Player) → lookup_or 0 i counts ≡ n → Trail counts i n ps → greatest counts ps ≤ n
  unfolding greatest Behind
  Trail-bound [] l t = omega arith
  Trail-bound (p ∷ ps) l t = ground (arith, Trail-bound ps)

  -- The greatest count is that of the leader.
  leader_greatest :
      (ps : List Player)
      → lookup_or 0 i counts ≡ n
      → Trail counts i n ps
      → is_known i ps ≡ true
      → greatest counts ps ≡ n
  unfolding greatest Behind is_known find_player
  leader_greatest [] l t k = cc
  leader_greatest (p ∷ ps) l t k = ground (arith, leader_greatest ps, Trail-bound ps)

  no_other :
      (ps : List Player)
      → Trail counts i n ps
      → All (λ j. j ≢ i) (ids ps)
      → holders counts n ps ≡ []
  unfolding holders Behind
  no_other [] t a = refl
  no_other (p ∷ ps) t a = ground (arith, no_other ps t.1 a.1, a.0, t.0)

  leader_alone :
      (ps : List Player)
      → lookup_or 0 i counts ≡ n
      → Distinct (ids ps)
      → Trail counts i n ps
      → is_known i ps ≡ true
      → holders counts n ps ≡ i ∷ []
  unfolding holders Behind is_known find_player
  leader_alone [] l d t k = cc
  leader_alone (p ∷ ps) l d t k = elim (id_dec p.id i) [
    | yes e ↦
        let a = subst (λ x. All (λ j. j ≢ x) (ids ps)) e d.0 in ground (arith, no_other ps t.1 a)
    | no e ↦ ground (arith, leader_alone ps l d.1 t.1)
  ]

  holder_known : (ps : List Player) → holders counts n ps ≡ i ∷ [] → is_known i ps ≡ true
  unfolding holders is_known find_player
  holder_known [] h = cc
  holder_known (p ∷ ps) h = ground (arith, holder_known ps)

Trail-along :
    (f g : PlayerId → ℕ) (i : PlayerId) (n : ℕ) (ps : List Player)
    → ((j : PlayerId) → f j ≡ g j)
    → Behind f i n ps
    → Behind g i n ps
unfolding Behind
Trail-along f g i n [] e t = tt
Trail-along f g i n (p ∷ ps) e t = ground (arith, e p.id, Trail-along f g i n ps e)

-- The player has a ballot, and more ballots than each of the other players.
pub record IsLeader (votes : List (PlayerId × PlayerId)) (ps : List Player) (i : PlayerId)
    : Type 0 where
  pub plays : is_known i ps ≡ true
  pub supported : 0 < support votes i
  pub ahead : Behind (support votes) i (support votes i) ps

module _ (R : Rng) where
  find-eliminated :
      (i : PlayerId) (events : List EventEnvelope) (e : Engine)
      → is_known i e.state.players ≡ true
      → (apply_elimination R i events e).0.state.players ≡ kill i e.state.players
  unfolding apply_elimination is_known
  find-eliminated i events e k = elim (Option-cases (find_player i e.state.players)) [
    | inl n ↦ ground arith
    | inr (p, n) ↦
        rw (n, apply_elimination)
          (rw (end_or_night-players (mark_dead R i e).0) (rw (mark_dead-frame R i e).0 refl))
  ]

  nobody_dies :
      (top : List PlayerId) (counts : Counts) (e : Engine)
      → (tally_top R (0, top) counts e).0.state.players ≡ e.state.players
  unfolding tally_top
  nobody_dies top counts e = ground (arith, enter_night-players e.clock e.state)

  sole_killed :
      (best : ℕ) (i : PlayerId) (counts : Counts) (e : Engine)
      → 0 < best
      → is_known i e.state.players ≡ true
      → (tally_top R (best, i ∷ []) counts e).0.state.players ≡ kill i e.state.players
  unfolding tally_top
  sole_killed best i counts e pos k =
      ground (arith, find-eliminated i (public_event (vote_tallied counts (some i) false) ∷ []) e)

-- Who leads the count: nobody, or the one who has the most.
abbrev leading : List (PlayerId × PlayerId) → List Player → List PlayerId
leading votes ps =
    let counts = count_votes votes [] in
    let n = greatest counts ps in if n == 0 then [] else holders counts n ps

leading_leads :
    (votes : List (PlayerId × PlayerId)) (ps : List Player) (i : PlayerId)
    → 0 < greatest (count_votes votes []) ps
    → leading votes ps ≡ i ∷ []
    → IsLeader votes ps i
leading_leads votes ps i pos h =
    let counts = count_votes votes [] in
    let n = greatest counts ps in
    let top : holders counts n ps ≡ i ∷ [] = ground arith in
    let (c, trail) = sole_top counts i n ps refl pos h in
    let m : support votes i ≡ n = sym (count_votes-support votes i) ∙ c in
    record {
      plays = holder_known counts i n ps top;
      supported = rw m pos;
      ahead = rw m (
          Trail-along (λ j. lookup_or 0 j counts) (support votes) i n ps (count_votes-support votes)
            trail);
    }

leader_leading :
    (votes : List (PlayerId × PlayerId)) (ps : List Player) (i : PlayerId)
    → Distinct (ids ps)
    → IsLeader votes ps i
    → leading votes ps ≡ i ∷ []
leader_leading votes ps i d v =
    let counts = count_votes votes [] in
    let n = support votes i in
    let c = count_votes-support votes i in
    let trail =
      Trail-along (support votes) (λ j. lookup_or 0 j counts) i n ps
        (λ j. sym (count_votes-support votes j)) v.ahead in
    let most = leader_greatest counts i n ps c trail v.plays in
    rw most (ground (arith, leader_alone counts i n ps c d trail v.plays, v.supported))

module _ (R : Rng) (e : Engine) (d : Distinct (ids e.state.players)) where
  -- What the tally makes of the players: the leader is killed, or there is none.
  abbrev pub IsJust : List Player → Type 0
  IsJust players =
      ((i : PlayerId) × IsLeader e.state.votes e.state.players i
        × (players ≡ kill i e.state.players))
      ⊎ (((i : PlayerId) → ¬ IsLeader e.state.votes e.state.players i)
          × (players ≡ e.state.players))

  decided :
      (n : ℕ) (top : List PlayerId) (counts : Counts)
      → n ≡ greatest (count_votes e.state.votes []) e.state.players
      → leading e.state.votes e.state.players ≡ top
      → IsJust (tally_top R (n, top) counts e).0.state.players
  decided zero top counts g h = inr (
    (λ i v. ground (arith, leader_leading e.state.votes e.state.players i d v)),
    nobody_dies R top counts e,
  )
  decided (suc n) [] counts g h = inr (
    (λ i v. ground (arith, leader_leading e.state.votes e.state.players i d v)),
    ground (arith, tally_top-players R (suc n) [] counts e),
  )
  decided (suc n) (i ∷ []) counts g h =
      let v = leading_leads e.state.votes e.state.players i (omega arith) h in
      inl (i, v, sole_killed R (suc n) i counts e (omega arith) v.plays)
  decided (suc n) (i ∷ j ∷ rest) counts g h = inr (
    (λ k v. ground (arith, leader_leading e.state.votes e.state.players k d v)),
    ground (arith, tally_top-players R (suc n) (i ∷ j ∷ rest) counts e),
  )

  -- If the players have distinct ids, then the tally kills the one player who has a ballot and more
  -- ballots than each of the others, and nobody else, or there is no such player and the players stay
  -- as they are; a ballot that names nobody is an abstention.
  pub tally_kills_leader : IsJust (tally R e).0.state.players
  unfolding tally
  tally_kills_leader =
      let counts = count_votes e.state.votes [] in
      rw (top_candidates_lem counts e.state.players) (
        decided (greatest counts e.state.players) (leading e.state.votes e.state.players) counts
          refl refl)
