-- ===== src/Game/Rand.antt =====
-- internal/game/rand.go, and what the engine uses of `math/rand`, which is a parameter.
use mathlib.Core.List.{Permᴰ}
use mafia_game_party.Prelude.{
  ℕ, ◌+◌, ◌*◌, ◌<◌, Option, none, some, List, [], ◌∷◌, PlayerId, ℤ, of_bits_64,
}

-- `*rand.Rand`: a generator's value, with the value that it has after the call. `Shuffle` permutes,
-- and `Intn(n)` lies in [0, n).
pub record Rng : Type 1 where
  pub Rand : Type 0
  pub new_source : ℤ → Rand
  pub shuffle : Rand → List PlayerId → List PlayerId × Rand
  pub intn : Rand → ℕ → ℕ × Rand
  pub shuffle-perm : (r : Rand) (xs : List PlayerId) → Permᴰ (shuffle r xs).0 xs
  pub intn-lt : (r : Rand) (n : ℕ) → 0 < n → (intn r n).0 < n

-- The reader is the list of the bytes that it will deliver. A short read consumes what is there.
unfoldable pub extract_seed_64 : List ℕ → Option ℤ × List ℕ
extract_seed_64 (a ∷ b ∷ c ∷ d ∷ e ∷ f ∷ g ∷ h ∷ rest) = (
  some (
      of_bits_64
        (a + 256 * (b + 256 * (c + 256 * (d + 256 * (e + 256 * (f + 256 * (g + 256 * h)))))))),
  rest,
)
extract_seed_64 _ = (none, [])

module _ (R : Rng) where
  open R use {Rand, new_source}

  abbrev seeded : Option ℤ → Option Rand
  seeded none = none
  seeded (some seed) = some (new_source seed)

  unfoldable pub new_inner_rand : List ℕ → Option Rand × List ℕ
  new_inner_rand bytes = let (seed, rest) = extract_seed_64 bytes in (seeded seed, rest)
