-- ===== src/Session/HostOptions/Accept.antt =====
-- Which options the host may save, and what saving does.
use mafia_game_party.Prelude.{none, pos, ◌-ℤ◌, pos_part, ◌+◌, ◌≤◌, ◌≤ℤ◌, ◌≡◌, ◌↔◌, arith}
use mafia_game_party.Game.Types.{Options}
use mafia_game_party.Session.HostOptions.{size_errors, duration_errors, validate_saved_host_options}

pub record IsSavable (o : Options) : Type 0 where
  pub room : (pos 6 ≤ℤ o.max_players) × (o.max_players ≤ℤ pos 12)
  pub some_mafia : pos 1 ≤ℤ o.mafia_count
  pub plain_citizen : pos_part o.mafia_count + 3 ≤ pos_part o.max_players
  pub intro_long : pos 5 ≤ℤ o.intro_seconds_per_player
  pub discussion_long : pos 30 ≤ℤ o.discussion_seconds
  pub nights_long :
      (pos 5 ≤ℤ o.night_mafia_seconds)
      × (pos 5 ≤ℤ o.night_police_seconds)
      × (pos 5 ≤ℤ o.night_doctor_seconds)

-- The options that may be saved are exactly those with 6 to 12 players, at least one mafia, at least
-- three more players than mafia, five seconds or more for an introduction and for each night step, and
-- thirty or more for the discussion.
pub validate_saved_iff : (o : Options) → (validate_saved_host_options o ≡ none) ↔ IsSavable o
unfolding validate_saved_host_options size_errors duration_errors ◌-ℤ◌
validate_saved_iff o = (λ h. ground arith, λ v. ground arith)
