-- ===== src/Game/Start/Fresh.antt =====
-- A game that `Start` has begun (engine.go).
use mafia_game_party.Prelude.{
  ◌+◌, true, not, ◌||◌, Option, none, some, List, [], ◌∷◌, map, any, length, ltb, String, PlayerId,
  nobody, ◌===◌, ◌≡◌, refl, ap, arith, inl, inr, Option-cases, IsInt64,
}
use mafia_game_party.Game.Types.{Role, Phase, is_phase, Options}
use mafia_game_party.Game.State.{Player, find_player, live_mafia_count, live_citizen_side_count}
use mafia_game_party.Game.Event.{EventEnvelope}
use mafia_game_party.Game.Error.{ErrorCode, errf, Failure}
use mafia_game_party.Game.Validation.{require}
use mafia_game_party.Game.Rand.{Rng, new_inner_rand}
use mafia_game_party.Game.Engine.{Engine, ok, ◌>>◌, Result-cases}
use mafia_game_party.Game.Role.{Assignments, assign}
use mafia_game_party.Game.Role.Deal.{role_in, elem, count_role}
use mafia_game_party.Game.Role.Assign.{assign_counts}
use mafia_game_party.Game.Invariant.Players.{ids, Distinct, leads}
use mafia_game_party.Game.Invariant.Defs.{Inv}
use mafia_game_party.Game.Start.{with_roles, started_state, begin_game, start}

pub ids-map : (ps : List Player) → map (λ (p : Player). p.id) ps ≡ ids ps
ids-map [] = refl
ids-map (p ∷ ps) = ap (◌∷◌ p.id) (ids-map ps)

ids-with_roles : (asg : Assignments) (ps : List Player) → ids (with_roles asg ps) ≡ ids ps
unfolding with_roles
ids-with_roles asg [] = refl
ids-with_roles asg (p ∷ ps) = ap (◌∷◌ p.id) (ids-with_roles asg ps)

live_mafia_count-with_roles :
    (asg : Assignments) (ps : List Player)
    → live_mafia_count (with_roles asg ps)
      ≡ count_role (role_in asg.player_roles) Role.mafia (ids ps)
unfolding live_mafia_count with_roles count_role
live_mafia_count-with_roles asg [] = refl
live_mafia_count-with_roles asg (p ∷ ps) = ground (arith, live_mafia_count-with_roles asg ps)

live-with_roles :
    (asg : Assignments) (ps : List Player)
    → live_mafia_count (with_roles asg ps) + live_citizen_side_count (with_roles asg ps)
      ≡ length (ids ps)
unfolding live_mafia_count live_citizen_side_count with_roles
live-with_roles asg [] = refl
live-with_roles asg (p ∷ ps) = ground (arith, live-with_roles asg ps)

leads-with_roles :
    (asg : Assignments) (i : PlayerId) (ps : List Player)
    → elem i (ids ps) ≡ true
    → role_in asg.player_roles i ≡ Role.mafia
    → leads i (with_roles asg ps) ≡ true
unfolding leads with_roles find_player
leads-with_roles asg i [] m r = cc
leads-with_roles asg i (p ∷ ps) m r = ground (arith, leads-with_roles asg i ps)

module _ (R : Rng) where
  started-Inv :
      (e : Engine) (game_id : String) (host : PlayerId) (players : List Player) (o : Options)
      (r : R.Rand) {asg : Assignments}
      → Distinct (ids players)
      → IsInt64 o.mafia_count
      → assign R e.pool (map (λ (p : Player). p.id) players) o r ≡ ok asg
      → Inv (started_state game_id host players o asg e.clock)
  unfolding started_state
  started-Inv e game_id host players o r {asg} d w h =
      let (v, mafia, doctor, police, citizen, role, member) =
        assign_counts R e.pool (ids players) o r d w (rw (ids-map players) at h) in
      let distinct : Distinct (ids (with_roles asg players)) = rw (ids-with_roles asg players) d in
      ground (
        arith,
        distinct,
        live_mafia_count-with_roles asg players,
        live-with_roles asg players,
        leads-with_roles asg asg.representative_id players member role,
        v,
        mafia,
      )

  begun-Inv :
      (e : Engine) (game_id : String) (host : PlayerId) (players : List Player) (o : Options)
      {events : List EventEnvelope}
      → let m =
          begin_game R
            (map (λ (p : Player). p.id) players)
            o
            (λ asg. started_state game_id host players o asg e.clock)
            e in
        Distinct (ids players) → IsInt64 o.mafia_count → m.1 ≡ ok events → Inv m.0.state
  unfolding begin_game
  begun-Inv e game_id host players o d w h = elim (Option-cases (new_inner_rand R e.rng).0) [
    | inl n ↦ absurd (ground arith)
    | inr (r, n) ↦ elim (Result-cases (assign R e.pool (map (λ (p : Player). p.id) players) o r)) [
      | inl (asg, a) ↦ rw (n, begin_game) (rw a (started-Inv e game_id host players o r d w a))
      | inr (f, a) ↦ absurd (ground arith)
    ]
  ]

  module _ (e : Engine) (game_id : String) (host : PlayerId) (players : List Player) (o : Options)
      (d : Distinct (ids players)) (w : IsInt64 o.mafia_count) where
    checked-Inv :
        (a b c : Option Failure) {events : List EventEnvelope}
        → let m =
            (do
              a
              b
              c
              begin_game R
                  (map (λ (p : Player). p.id) players)
                  o
                  (λ asg. started_state game_id host players o asg e.clock))
              e in
          m.1 ≡ ok events → Inv m.0.state
    checked-Inv none none none h = begun-Inv e game_id host players o d w h
    checked-Inv (some f) b c h = cc
    checked-Inv none (some f) c h = cc
    checked-Inv none none (some f) h = cc

    -- If `Start` succeeds with players of distinct ids and a mafia count that is a 64-bit number, the
    -- game that it begins meets the invariant.
    pub start-Inv :
        {events : List EventEnvelope}
        → (start R game_id host players o e).1 ≡ ok events
        → Inv (start R game_id host players o e).0.state
    unfolding start
    start-Inv h =
        checked-Inv
          (require (is_phase e.state.phase Phase.unset || is_phase e.state.phase Phase.lobby)
            (errf ErrorCode.wrong_phase))
          (require (not (ltb (length players) 6 || ltb 12 (length players)))
            (errf ErrorCode.validation))
          (require (host === nobody || any (λ (p : Player). p.id === host) players)
            (errf ErrorCode.permission_denied))
          h
