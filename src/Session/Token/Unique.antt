-- ===== src/Session/Token/Unique.antt =====
-- A token that is issued is new.
use mafia_game_party.Prelude.{
  ℕ, zero, suc, false, Option, none, some, List, [], ◌∷◌, String, PlayerId, any, ◌≡◌, ◌≢◌, arith,
}
use mafia_game_party.Session.Types.{Member, Outcome, done}
use mafia_game_party.Session.Token.{judge, new_token, token_in_use, try_tokens, issue_unique_token}

-- No member has the token.
unfoldable pub IsNew : String → List (PlayerId × Member) → Type 0
IsNew t [] = Unit
IsNew t ((id, m) ∷ members) = (m.token ≢ t) × IsNew t members

module _ (encode : List ℕ → String) where
  unused-IsNew :
      (t : String) (members : List (PlayerId × Member))
      → token_in_use encode t members ≡ false
      → IsNew t members
  unfolding IsNew token_in_use any
  unused-IsNew t [] h = tt
  unused-IsNew t ((id, m) ∷ members) h = ground (arith, unused-IsNew t members)

module _ (encode : List ℕ → String) (members : List (PlayerId × Member)) where
  judge-fresh :
      (o : Option String) (rest : List ℕ) (again : Outcome String × List ℕ) (t : String)
      → (again.0 ≡ done t → token_in_use encode t members ≡ false)
      → (judge encode o rest members again).0 ≡ done t
      → token_in_use encode t members ≡ false
  judge-fresh none rest again t ih h = cc
  judge-fresh (some u) rest again t ih h = ground arith

  try_tokens-fresh :
      (n : ℕ) (bytes : List ℕ) (t : String)
      → (try_tokens encode n members bytes).0 ≡ done t
      → token_in_use encode t members ≡ false
  unfolding try_tokens
  try_tokens-fresh zero bytes t h = cc
  try_tokens-fresh (suc n) bytes t h =
      let (o, rest) = new_token encode bytes in
      judge-fresh o rest (try_tokens encode n members rest) t (try_tokens-fresh n rest t) h

  pub issue_unique_token-unused :
      (bytes : List ℕ) {t : String}
      → (issue_unique_token encode members bytes).0 ≡ done t
      → token_in_use encode t members ≡ false
  unfolding issue_unique_token
  issue_unique_token-unused bytes {t} h = try_tokens-fresh 5 bytes t h

  -- Whatever bytes the reader delivers, no member has a token that is issued.
  pub issue_unique_token-fresh :
      (bytes : List ℕ) {t : String}
      → (issue_unique_token encode members bytes).0 ≡ done t
      → IsNew t members
  issue_unique_token-fresh bytes {t} h =
      unused-IsNew encode t members (issue_unique_token-unused bytes h)
