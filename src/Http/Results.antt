-- ===== src/Http/Results.antt =====
-- What a client of the results learns.
use mafia_game_party.Prelude.{
  ℤ, pos, ◌≤ℤ◌, Option, none, some, List, [], ◌∷◌, String, ◌≡◌, refl, arith,
}
use mafia_game_party.Persistence.{PersistedMember, GameResult, Store}
use mafia_game_party.Http.{
  member_entries, build_results_response, limit_of, respond, respond_within, results_handler,
}

-- The members with other tokens, and without the connection's flag.
unfoldable pub AlikeMembers : List PersistedMember → List PersistedMember → Type 0
AlikeMembers [] [] = Unit
AlikeMembers [] (m ∷ ms) = ⊥
AlikeMembers (m ∷ ms) [] = ⊥
AlikeMembers (m ∷ ms) (m' ∷ ms') =
    (m ≡ record m' { token = m.token; connected = m.connected }) × AlikeMembers ms ms'

-- The results differ in the tokens and flags of their members only.
unfoldable pub AlikeResults : List GameResult → List GameResult → Type 0
AlikeResults [] [] = Unit
AlikeResults [] (r ∷ rs) = ⊥
AlikeResults (r ∷ rs) [] = ⊥
AlikeResults (r ∷ rs) (r' ∷ rs') =
    (r ≡ record r' { members = r.members })
    × AlikeMembers r.members r'.members
    × AlikeResults rs rs'

unfoldable pub AlikeLists : Option (List GameResult) → Option (List GameResult) → Type 0
unfolding AlikeResults
AlikeLists none none = Unit
AlikeLists none (some rs) = ⊥
AlikeLists (some rs) none = ⊥
AlikeLists (some rs) (some rs') = AlikeResults rs rs'

member_entries-alike :
    (ms ms' : List PersistedMember) → AlikeMembers ms ms' → member_entries ms ≡ member_entries ms'
unfolding AlikeMembers
member_entries-alike [] [] a = refl
member_entries-alike [] (m' ∷ ms') a = elim a [ ]
member_entries-alike (m ∷ ms) [] a = elim a [ ]
member_entries-alike (m ∷ ms) (m' ∷ ms') a = ground (arith, member_entries-alike ms ms' a.1)

build_results_response-alike :
    (rs rs' : List GameResult)
    → AlikeResults rs rs'
    → build_results_response rs ≡ build_results_response rs'
unfolding AlikeResults build_results_response
build_results_response-alike [] [] a = refl
build_results_response-alike [] (r' ∷ rs') a = elim a [ ]
build_results_response-alike (r ∷ rs) [] a = elim a [ ]
build_results_response-alike (r ∷ rs) (r' ∷ rs') a =
    ground (
      arith,
      member_entries-alike r.members r'.members a.1,
      build_results_response-alike rs rs' a.2,
    )

respond-alike : (x y : Option (List GameResult)) → AlikeLists x y → respond x ≡ respond y
unfolding AlikeLists
respond-alike none none a = refl
respond-alike none (some rs') a = elim a [ ]
respond-alike (some rs) none a = elim a [ ]
respond-alike (some rs) (some rs') a = ground (arith, build_results_response-alike rs rs' a)

limit_of-bounds :
    (atoi : String → Option ℤ) (v : String) (n : ℤ)
    → limit_of atoi v ≡ some n
    → (pos 1 ≤ℤ n) × (n ≤ℤ pos 500)
unfolding limit_of
limit_of-bounds atoi v n h = ground arith

module _ (S : Store) (d d' : S.Disk) where
  -- The store lists alike results on both disks, at each limit from 1 to 500.
  abbrev pub ListsAlike : Type 0
  ListsAlike =
      (limit : ℤ)
      → pos 1 ≤ℤ limit
      → limit ≤ℤ pos 500
      → AlikeLists (S.list_results limit d) (S.list_results limit d')

  respond_within-alike :
      (l : Option ℤ)
      → ListsAlike
      → ((n : ℤ) → l ≡ some n → (pos 1 ≤ℤ n) × (n ≤ℤ pos 500))
      → respond_within S l d ≡ respond_within S l d'
  respond_within-alike none a b = refl
  respond_within-alike (some n) a b =
      let (x, y) = b n refl in respond-alike (S.list_results n d) (S.list_results n d') (a n x y)

  -- The response to a query for the results is the same on two disks on which the store lists results
  -- that differ only in the tokens and connections of their members, for each limit from 1 to 500,
  -- whatever the query: no token can be learnt from it, and no other limit gets to the store.
  pub results_handler-secret :
      (atoi : String → Option ℤ) (v : String)
      → ListsAlike
      → results_handler S atoi v d ≡ results_handler S atoi v d'
  unfolding results_handler
  results_handler-secret atoi v a =
      respond_within-alike (limit_of atoi v) a (limit_of-bounds atoi v)
