-- ===== src/Game/Night/Successor.antt =====
-- `reassignMafiaRepresentative`, and the death that calls for it: who leads the mafia afterwards.
use mafia_game_party.Prelude.{
  ℕ, ◌<◌, true, Option, none, some, List, [], ◌∷◌, length, get_or, PlayerId, nobody, ◌≡◌, refl, ◌⊎◌,
  inl, inr, arith,
}
use mafia_game_party.Game.State.{Player, kill, living_mafia_ids, live_mafia_count}
use mafia_game_party.Game.Rand.{Rng, new_inner_rand}
use mafia_game_party.Game.Engine.{Engine, set_state}
use mafia_game_party.Game.Invariant.Players.{
  Distinct, ids, ids-kill, leads, leads-kill_ne, leads-get_or, length-living_mafia_ids,
  live_mafia_count-kill,
}
use mafia_game_party.Game.Night.{choose, reassign_among, reassign_mafia_representative, mark_dead}

-- There is a leader, or there are no living mafia.
abbrev pub IsLed : PlayerId → List Player → Type 0
IsLed i ps = (leads i ps ≡ true) ⊎ (live_mafia_count ps ≡ 0)

module _ (R : Rng) where
  open R use {Rand, intn, intn-lt}

  choose_lem :
      (i : PlayerId) (is : List PlayerId) (r : Option Rand)
      → (k : ℕ) × (k < length (i ∷ is)) × (choose R (i ∷ is) r ≡ get_or (i ∷ is) k nobody)
  unfolding choose
  choose_lem i is none = (0, omega arith, refl)
  choose_lem i is (some r) =
      ((intn r (length (i ∷ is))).0, intn-lt r (length (i ∷ is)) (omega arith), refl)

  reassign_among-leads :
      (ps : List Player) (js : List PlayerId) (old : PlayerId) (e : Engine)
      → Distinct (ids ps)
      → living_mafia_ids ps ≡ js
      → IsLed (reassign_among R js old e).0.state.mafia_representative_id ps
  unfolding reassign_among
  reassign_among-leads ps [] old e d h = inr (rw (← length-living_mafia_ids ps) (rw h refl))
  reassign_among-leads ps (i ∷ is) old e d h =
      let (k, lt, c) = choose_lem i is (new_inner_rand R e.rng).0 in
      inl (rw c (rw (← h) (leads-get_or ps k d (rw h lt))))

  reassign_among-frame :
      (js : List PlayerId) (old : PlayerId) (e : Engine)
      → let e' = (reassign_among R js old e).0 in
        (e'.state ≡ record e.state { mafia_representative_id = e'.state.mafia_representative_id })
        × (e'.clock ≡ e.clock)
        × (e'.pool ≡ e.pool)
  unfolding reassign_among
  reassign_among-frame [] old e = (refl, refl, refl)
  reassign_among-frame (i ∷ is) old e = (refl, refl, refl)

  -- A death writes the list of players and the representative, and no other field of the state.
  pub mark_dead-frame :
      (i : PlayerId) (e : Engine)
      → let e' = (mark_dead R i e).0 in
        (e'.state ≡ record e.state {
          players = kill i e.state.players;
          mafia_representative_id = e'.state.mafia_representative_id;
        })
        × (e'.clock ≡ e.clock)
        × (e'.pool ≡ e.pool)
  unfolding mark_dead reassign_mafia_representative
  mark_dead-frame i e = ground (
    arith,
    reassign_among-frame (living_mafia_ids (kill i e.state.players)) i
        (set_state (record e.state { players = kill i e.state.players }) e),
  )

  -- After a death the mafia are led again.
  pub mark_dead-IsLed :
      (i : PlayerId) (e : Engine)
      → Distinct (ids e.state.players)
      → IsLed e.state.mafia_representative_id e.state.players
      → IsLed (mark_dead R i e).0.state.mafia_representative_id (kill i e.state.players)
  unfolding mark_dead reassign_mafia_representative
  mark_dead-IsLed i e d led = ground (
    arith,
    leads-kill_ne i e.state.mafia_representative_id e.state.players,
    live_mafia_count-kill i e.state.players,
    reassign_among-leads (kill i e.state.players) (living_mafia_ids (kill i e.state.players)) i
        (set_state (record e.state { players = kill i e.state.players }) e)
        (rw (ids-kill i e.state.players) d) refl,
  )
