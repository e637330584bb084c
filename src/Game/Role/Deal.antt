-- ===== src/Game/Role/Deal.antt =====
-- The roles that `Assign` deals: how many of each (role.go).
use mafia_game_party.Prelude.{
  ℕ, suc, ◌+◌, Bool, true, false, List, [], ◌∷◌, ◌++◌, All, length, lookup_or, insert,
  lookup_or-insert, PlayerId, ◌===◌, ◌≡◌, refl, ◌≢◌, arith, if◌then◌else◌,
}
use mafia_game_party.Game.Types.{Role, is_role}
use mafia_game_party.Game.Invariant.Players.{Distinct}
use mafia_game_party.Game.Role.{put_all}

abbrev pub elem : PlayerId → List PlayerId → Bool
elem i [] = false
elem i (j ∷ js) = if j === i then true else elem i js

lookup_or-put_all :
    (role : Role) (is : List PlayerId) (m : List (PlayerId × Role)) (j : PlayerId)
    → lookup_or Role.unset j (put_all role is m)
      ≡ (if elem j is then role else lookup_or Role.unset j m)
unfolding put_all
lookup_or-put_all role [] m j = refl
lookup_or-put_all role (i ∷ is) m j =
    ground
      (arith, lookup_or-put_all role is (insert i role m) j, lookup_or-insert Role.unset i j role m)

-- The role of an id in the table that is dealt.
abbrev pub role_in : List (PlayerId × Role) → PlayerId → Role
role_in m i = lookup_or Role.unset i m

abbrev pub table : List PlayerId → PlayerId → PlayerId → List PlayerId → List (PlayerId × Role)
table ms d p cs =
    put_all Role.citizen cs (insert p Role.police (insert d Role.doctor (put_all Role.mafia ms [])))

pub role_in-table :
    (ms : List PlayerId) (d p : PlayerId) (cs : List PlayerId) (i : PlayerId)
    → role_in (table ms d p cs) i ≡ (
        if elem i cs
        then Role.citizen
        else if p === i
        then Role.police
        else if d === i
        then Role.doctor
        else if elem i ms
        then Role.mafia
        else Role.unset)
unfolding lookup_or
role_in-table ms d p cs i = ground (
  arith,
  lookup_or-put_all Role.citizen cs
      (insert p Role.police (insert d Role.doctor (put_all Role.mafia ms []))) i,
  lookup_or-insert Role.unset p i Role.police (insert d Role.doctor (put_all Role.mafia ms [])),
  lookup_or-insert Role.unset d i Role.doctor (put_all Role.mafia ms []),
  lookup_or-put_all Role.mafia ms [] i,
)

All-map :
    {P Q : PlayerId → Type 0} (us : List PlayerId)
    → ((i : PlayerId) → P i → Q i)
    → All P us
    → All Q us
All-map [] f h = tt
All-map (u ∷ us) f h = (f u h.0, All-map us f h.1)

pub All-map₂ :
    {P Q S : PlayerId → Type 0} (us : List PlayerId)
    → ((i : PlayerId) → P i → Q i → S i)
    → All P us
    → All Q us
    → All S us
All-map₂ [] f h k = tt
All-map₂ (u ∷ us) f h k = (f u h.0 k.0, All-map₂ us f h.1 k.1)

pub All-elem : (us : List PlayerId) → All (λ i. elem i us ≡ true) us
All-elem [] = tt
All-elem (u ∷ us) = (ground arith, All-map us (λ i h. ground arith) (All-elem us))

not-elem : (i : PlayerId) (us : List PlayerId) → All (λ j. j ≢ i) us → elem i us ≡ false
not-elem i [] h = refl
not-elem i (u ∷ us) h = ground (arith, not-elem i us h.1)

All-append_right : (P : PlayerId → Type 0) (us vs : List PlayerId) → All P (us ++ vs) → All P vs
All-append_right P [] vs h = h
All-append_right P (u ∷ us) vs h = All-append_right P us vs h.1

pub All-append_left : (P : PlayerId → Type 0) (us vs : List PlayerId) → All P (us ++ vs) → All P us
All-append_left P [] vs h = tt
All-append_left P (u ∷ us) vs h = (h.0, All-append_left P us vs h.1)

-- Each of the first part differs from all of the second.
apart : (us vs : List PlayerId) → Distinct (us ++ vs) → All (λ i. All (λ j. j ≢ i) vs) us
apart [] vs h = tt
apart (u ∷ us) vs h = (All-append_right (λ j. j ≢ u) us vs h.0, apart us vs h.1)

Distinct-append_right : (us vs : List PlayerId) → Distinct (us ++ vs) → Distinct vs
Distinct-append_right [] vs h = h
Distinct-append_right (u ∷ us) vs h = Distinct-append_right us vs h.1

unfoldable pub count_role : (PlayerId → Role) → Role → List PlayerId → ℕ
count_role f r [] = 0
count_role f r (i ∷ is) = let rest = count_role f r is in if is_role (f i) r then suc rest else rest

count_role-append :
    (f : PlayerId → Role) (r : Role) (us vs : List PlayerId)
    → count_role f r (us ++ vs) ≡ count_role f r us + count_role f r vs
unfolding count_role
count_role-append f r [] vs = omega arith
count_role-append f r (u ∷ us) vs = ground (arith, count_role-append f r us vs)

count_role_const :
    (f : PlayerId → Role) (r c : Role) (us : List PlayerId)
    → All (λ i. f i ≡ c) us
    → count_role f r us ≡ (if is_role c r then length us else 0)
unfolding count_role
count_role_const f r c [] h = ground arith
count_role_const f r c (u ∷ us) h = ground (arith, count_role_const f r c us h.1)

-- The first part of distinct ids has the mafia's role.
pub table-mafia :
    (ms : List PlayerId) (d p : PlayerId) (cs : List PlayerId)
    → Distinct (ms ++ d ∷ p ∷ cs)
    → All (λ i. role_in (table ms d p cs) i ≡ Role.mafia) ms
table-mafia ms d p cs h =
    All-map₂ ms (λ i here k. ground (arith, role_in-table ms d p cs i, not-elem i cs k.1.1))
      (All-elem ms) (apart ms (d ∷ p ∷ cs) h)

-- The table of distinct ids gives the first part the mafia, then a doctor, a police and citizens.
pub table-count :
    (ms : List PlayerId) (d p : PlayerId) (cs : List PlayerId) (r : Role)
    → Distinct (ms ++ d ∷ p ∷ cs)
    → count_role (role_in (table ms d p cs)) r (ms ++ d ∷ p ∷ cs)
      ≡ (if is_role Role.mafia r then length ms else 0)
        + ((if is_role Role.doctor r then 1 else 0)
            + ((if is_role Role.police r then 1 else 0)
                + (if is_role Role.citizen r then length cs else 0)))
unfolding count_role
table-count ms d p cs r h =
    let T = table ms d p cs in
    let tail : Distinct (d ∷ p ∷ cs) = Distinct-append_right ms (d ∷ p ∷ cs) h in
    let citizens : All (λ i. role_in T i ≡ Role.citizen) cs =
      All-map cs (λ i k. ground (arith, role_in-table ms d p cs i)) (All-elem cs) in
    ground (
      arith,
      count_role-append (role_in T) r ms (d ∷ p ∷ cs),
      count_role_const (role_in T) r Role.mafia ms (table-mafia ms d p cs h),
      count_role_const (role_in T) r Role.citizen cs citizens,
      role_in-table ms d p cs d,
      role_in-table ms d p cs p,
      not-elem d cs tail.0.1,
      not-elem p cs tail.1.0,
    )
