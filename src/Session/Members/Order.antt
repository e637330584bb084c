-- ===== src/Session/Members/Order.antt =====
-- The order of the members in a game: by the time at which they joined.
use mathlib.Core.List.{Perm, append-nil, perm_middle}
use mathlib.Core.List.Perm
use mafia_game_party.Prelude.{
  true, Option, none, some, PlayerId, lookup, ◌===◌, ◌&&◌, ◌≡◌, refl, ◌<◌, ◌≤◌, List, [], ◌∷◌, ◌++◌,
  arith, subst, Bool-cases, inl, inr,
}
use mafia_game_party.Prelude.Time.{Time, after}
use mafia_game_party.Session.Types.{Member}
use mafia_game_party.Session.Members.{
  sink, insert_by_join, sort_by_join, others, host_first, order_members,
}
use mafia_game_party.Session.Members.Ids.{HaveIds}

-- All joined at `t` or later.
unfoldable pub Since : Time → List Member → Type 0
Since t [] = Unit
Since t (m ∷ ms) = (t ≤ m.joined_at) × Since t ms

unfoldable pub IsByJoin : List Member → Type 0
unfolding Since
IsByJoin [] = Unit
IsByJoin (m ∷ ms) = Since m.joined_at ms × IsByJoin ms

Since-weaken : (t u : Time) (ms : List Member) → t ≤ u → Since u ms → Since t ms
unfolding Since
Since-weaken t u [] h s = tt
Since-weaken t u (m ∷ ms) h s = ground (arith, Since-weaken t u ms h)

-- A member passes all that joined later.
sink-Since :
    (t : Time) (m : Member) (ms : List Member)
    → m.joined_at < t
    → Since t ms
    → sink m ms ≡ (m ∷ ms, true)
unfolding Since sink
sink-Since t m [] h s = refl
sink-Since t m (x ∷ xs) h s = ground (arith, sink-Since t m xs h)

sink_kept :
    (t : Time) (m : Member) (ms : List Member)
    → t ≤ m.joined_at
    → Since t ms
    → Since t (sink m ms).0
unfolding Since sink
sink_kept t m [] h s = ground arith
sink_kept t m (x ∷ xs) h s = ground (arith, sink_kept t m xs h)

insert_by_join-IsByJoin :
    (m : Member) (ms : List Member) → IsByJoin ms → IsByJoin (insert_by_join m ms)
unfolding insert_by_join sink IsByJoin Since
insert_by_join-IsByJoin m [] s = ground arith
insert_by_join-IsByJoin m (x ∷ xs) s = ground (
  arith,
  insert_by_join-IsByJoin m xs,
  sink-Since x.joined_at m xs,
  sink_kept x.joined_at m xs,
  Since-weaken m.joined_at x.joined_at xs,
)

sink-Perm : (m : Member) (ms : List Member) → Perm (sink m ms).0 (m ∷ ms)
unfolding sink
sink-Perm m [] = Perm.refl (m ∷ [])
sink-Perm m (x ∷ xs) = elim (Bool-cases ((sink m xs).1 && after x.joined_at m.joined_at)) [
  | inl later ↦ rw later (Perm.refl (m ∷ x ∷ xs))
  | inr not_later ↦ rw not_later (Perm.trans (Perm.cons x (sink-Perm m xs)) (Perm.swap m x xs))
]

insert_by_join-Perm : (m : Member) (ms : List Member) → Perm (insert_by_join m ms) (m ∷ ms)
unfolding insert_by_join
insert_by_join-Perm m ms = sink-Perm m ms

sort_by_join-IsByJoin :
    (sorted ms : List Member) → IsByJoin sorted → IsByJoin (sort_by_join sorted ms)
unfolding sort_by_join
sort_by_join-IsByJoin sorted [] s = s
sort_by_join-IsByJoin sorted (m ∷ ms) s =
    sort_by_join-IsByJoin (insert_by_join m sorted) ms (insert_by_join-IsByJoin m sorted s)

sort_by_join-Perm : (sorted ms : List Member) → Perm (sort_by_join sorted ms) (ms ++ sorted)
unfolding sort_by_join
sort_by_join-Perm sorted [] = Perm.refl sorted
sort_by_join-Perm sorted (m ∷ ms) =
    Perm.trans (sort_by_join-Perm (insert_by_join m sorted) ms)
      (Perm.trans (Perm.append_left ms (insert_by_join-Perm m sorted)) (perm_middle ms sorted))

sort_by_join_lem : (ms : List Member) → IsByJoin (sort_by_join [] ms) × Perm (sort_by_join [] ms) ms
unfolding IsByJoin
sort_by_join_lem ms = (
  sort_by_join-IsByJoin [] ms tt,
  subst (Perm (sort_by_join [] ms)) (append-nil ms) (sort_by_join-Perm [] ms),
)

-- The members of the table, in its order.
abbrev pub values : List (PlayerId × Member) → List Member
values [] = []
values ((id, m) ∷ members) = m ∷ values members

found_host :
    (x : Option Member) (os vs : List Member) → x ≡ none → Perm (host_first x ++ os) vs → Perm os vs
found_host none os vs h p = p
found_host (some m) os vs h p = cc

before_others :
    (x : Option Member) (m : Member) (os vs : List Member)
    → Perm (host_first x ++ os) vs
    → Perm (host_first x ++ m ∷ os) (m ∷ vs)
before_others none m os vs p = Perm.cons m p
before_others (some h) m os vs p = Perm.trans (Perm.swap m h os) (Perm.cons m p)

host_and_others :
    (members : List (PlayerId × Member)) (host : PlayerId)
    → HaveIds members
    → Perm (host_first (lookup host members) ++ others host members) (values members)
unfolding HaveIds lookup others
host_and_others [] host k = Perm.refl []
host_and_others ((id, m) ∷ members) host k =
    let rest = host_and_others members host k.3 in
    elim (Bool-cases (id === host)) [
      | inl same ↦
          let alone : lookup host members ≡ none = ground arith in
          rw same (Perm.cons m (found_host (lookup host members) _ _ alone rest))
      | inr other ↦ rw other (before_others (lookup host members) m _ _ rest)
    ]

-- The host, if it is a member, stands before the others, and these in the order in which they joined.
abbrev pub IsOrdered : Option Member → List Member → Type 0
IsOrdered none ms = IsByJoin ms
IsOrdered (some h) [] = ⊥
IsOrdered (some h) (m ∷ ms) = (m ≡ h) × IsByJoin ms

host_leads : (x : Option Member) (ms : List Member) → IsByJoin ms → IsOrdered x (host_first x ++ ms)
host_leads none ms s = s
host_leads (some h) ms s = (refl, s)

-- If each member stands under its own id and under no other, then the order of the members has each of
-- them once; the host, if it is a member, comes first, and nobody among the others stands before one
-- who joined earlier.
pub order_members_lem :
    (members : List (PlayerId × Member)) (host : PlayerId)
    → HaveIds members
    → Perm (order_members members host) (values members)
      × IsOrdered (lookup host members) (order_members members host)
unfolding order_members
order_members_lem members host k =
    let (sorted, same) = sort_by_join_lem (others host members) in
    (
      Perm.trans (Perm.append_left (host_first (lookup host members)) same)
          (host_and_others members host k),
      host_leads (lookup host members) (sort_by_join [] (others host members)) sorted,
    )
