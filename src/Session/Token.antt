-- ===== src/Session/Token.antt =====
-- internal/session/token.go: the tokens by which a player comes back. The encoding as hexadecimal
-- text is the library's, a parameter.
pub mod Unique
use mafia_game_party.Prelude.{
  ℕ, zero, suc, Bool, true, false, Option, none, some, List, [], ◌∷◌, String, PlayerId, ◌===◌,
  if◌then◌else◌, any, length, ltb, take, drop,
}
use mafia_game_party.Session.Types.{Member, Outcome, done, fault, rng_read, token_collision}

abbrev token_byte_len : ℕ
token_byte_len = 32

abbrev token_attempts : ℕ
token_attempts = 5

module _ (encode : List ℕ → String) where
  -- `io.ReadFull`: a short read consumes what is there, and fails.
  unfoldable pub new_token : List ℕ → Option String × List ℕ
  new_token bytes =
      if ltb (length bytes) token_byte_len
      then (none, [])
      else (some (encode (take token_byte_len bytes)), drop token_byte_len bytes)

  unfoldable pub token_in_use : String → List (PlayerId × Member) → Bool
  unfolding any
  token_in_use t members = any (λ e. e.1.token === t) members

  abbrev judge :
      Option String
      → List ℕ
      → List (PlayerId × Member)
      → Outcome String × List ℕ
      → Outcome String × List ℕ
  judge none rest members again = (fault rng_read, rest)
  judge (some t) rest members again = if token_in_use t members then again else (done t, rest)

  -- The loop, by the attempts that are left.
  unfoldable pub try_tokens : ℕ → List (PlayerId × Member) → List ℕ → Outcome String × List ℕ
  try_tokens zero members bytes = (fault token_collision, bytes)
  try_tokens (suc n) members bytes =
      let (t, rest) = new_token bytes in
      let again = try_tokens n members rest in judge t rest members again

  unfoldable pub issue_unique_token : List (PlayerId × Member) → List ℕ → Outcome String × List ℕ
  issue_unique_token members bytes = try_tokens token_attempts members bytes
