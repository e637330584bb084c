-- ===== src/Prelude/Time.antt =====
-- Go's `time`: an instant is a number of nanoseconds since the zero `time.Time`, a `Duration` a
-- signed 64-bit number of nanoseconds. Instants before the zero time do not arise: `add` stops
-- there. `sub` is exact, where Go saturates beyond 292 years.
use Prim.Native.Nat.{ℕ, ◌+◌, ◌-◌}
use mathlib.Core.Bool.{Bool}
use mafia_game_party.Prelude.Int.{ℤ, pos, pos_part, neg_part, sub_ℕ, ◌*ℤ◌}
use mafia_game_party.Prelude.Tests.{ltb, ◌==◌}

abbrev pub Time : Type 0
Time = ℕ

-- `time.Time{}`
abbrev pub zero_time : Time
zero_time = 0

abbrev pub is_zero : Time → Bool
is_zero t = t == 0

-- `time.Duration(n) * time.Second`
unfoldable pub seconds : ℤ → ℤ
seconds n = n *ℤ pos 1_000_000_000

-- `t.Add(d)`
abbrev pub add : Time → ℤ → Time
add t d = t + pos_part d - neg_part d

-- `t.Sub(u)`
abbrev pub sub : Time → Time → ℤ
sub t u = sub_ℕ t u

-- `t.Before(u)` and `t.After(u)`
abbrev pub before : Time → Time → Bool
before t u = ltb t u

abbrev pub after : Time → Time → Bool
after t u = ltb u t
