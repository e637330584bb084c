-- ===== src/Game/Role/Assign.antt =====
-- `Assign` as a whole: a successful assignment deals the roles that the options ask for (role.go).
use mathlib.Core.List.{Permᴰ}
use mafia_game_party.Prelude.{
  ℕ, zero, suc, ◌+◌, ◌<◌, true, none, some, List, [], ◌∷◌, ◌++◌, All, length, length-append, take,
  drop, get_or, PlayerId, nobody, ltb, ◌≡◌, refl, ◌≢◌, sym, subst, ◌∙◌, ap, arith, inl, inr,
  if◌then◌else◌, Bool-cases, pos, pos_part, IsInt64,
}
use mafia_game_party.Game.Types.{Role, is_role, role_dec, Options}
use mafia_game_party.Game.Validation.{validate_options}
use mafia_game_party.Game.Validation.Accept.{IsValid, validate_options_iff}
use mafia_game_party.Game.Rand.{Rng}
use mafia_game_party.Game.Keyword.{KeywordPool}
use mafia_game_party.Game.Engine.{ok}
use mafia_game_party.Game.Invariant.Players.{Distinct}
use mafia_game_party.Game.Role.Deal.{
  role_in, elem, All-elem, All-append_left, table, count_role, table-count, table-mafia,
}
use mafia_game_party.Game.Role.{
  Assignments, deal, pick_representative, with_keywords, with_roles, after_validation, assign,
  pick_keywords,
}

count_role-perm :
    (f : PlayerId → Role) (r : Role) {us vs : List PlayerId}
    → Permᴰ us vs
    → count_role f r us ≡ count_role f r vs
unfolding count_role
count_role-perm f r Permᴰ.nil = refl
count_role-perm f r (Permᴰ.cons e d) = ground (arith, count_role-perm f r d)
count_role-perm f r (Permᴰ.swap e e') = ground arith
count_role-perm f r (Permᴰ.trans d d') = count_role-perm f r d ∙ count_role-perm f r d'

All-perm : (P : PlayerId → Type 0) {us vs : List PlayerId} → Permᴰ us vs → All P vs → All P us
All-perm P Permᴰ.nil h = h
All-perm P (Permᴰ.cons e d) h = (rw e h.0, All-perm P d h.1)
All-perm P (Permᴰ.swap e e') h = (rw e h.1.0, (rw e' h.0, h.1.1))
All-perm P (Permᴰ.trans d d') h = All-perm P d (All-perm P d' h)

Distinct-perm : {us vs : List PlayerId} → Permᴰ us vs → Distinct vs → Distinct us
Distinct-perm Permᴰ.nil h = h
Distinct-perm (Permᴰ.cons {b = b} e d) h = (rw e (All-perm (λ j. j ≢ b) d h.0), Distinct-perm d h.1)
Distinct-perm (Permᴰ.swap {l = l} e e') h = (
  (λ q. h.0.0 (sym (sym e' ∙ q ∙ e)), subst (λ x. All (λ j. j ≢ x) l) (sym e) h.1.0),
  (subst (λ x. All (λ j. j ≢ x) l) (sym e') h.0.1, h.1.1),
)
Distinct-perm (Permᴰ.trans d d') h = Distinct-perm d (Distinct-perm d' h)

length-perm : {us vs : List PlayerId} → Permᴰ us vs → length us ≡ length vs
length-perm Permᴰ.nil = refl
length-perm (Permᴰ.cons e d) = ap suc (length-perm d)
length-perm (Permᴰ.swap e e') = refl
length-perm (Permᴰ.trans d d') = length-perm d ∙ length-perm d'

take-drop : (k : ℕ) (us : List PlayerId) → take k us ++ drop k us ≡ us
take-drop zero us = refl
take-drop (suc k) [] = refl
take-drop (suc k) (u ∷ us) = ap (◌∷◌ u) (take-drop k us)

length-take_of_drop :
    (k : ℕ) (us : List PlayerId) {v : PlayerId} {vs : List PlayerId}
    → drop k us ≡ v ∷ vs
    → length (take k us) ≡ k
length-take_of_drop zero us h = refl
length-take_of_drop (suc k) [] h = cc
length-take_of_drop (suc k) (u ∷ us) h = ap suc (length-take_of_drop k us h)

-- What a dealt table is: the ids in three parts.
record Dealt (k : ℕ) (us : List PlayerId) (m : List (PlayerId × Role)) : Type 0 where
  doctor : PlayerId
  police : PlayerId
  citizens : List PlayerId
  parts : us ≡ take k us ++ doctor ∷ police ∷ citizens
  mafia : length (take k us) ≡ k
  is_table : m ≡ table (take k us) doctor police citizens

Dealt-of :
    (k : ℕ) (us : List PlayerId) (m : List (PlayerId × Role)) (rest : List PlayerId)
    → drop k us ≡ rest
    → deal k us ≡ some m
    → Dealt k us m
unfolding deal
Dealt-of k us m [] e h = absurd (ground arith)
Dealt-of k us m (d ∷ []) e h = absurd (ground arith)
Dealt-of k us m (d ∷ p ∷ cs) e h = record {
  doctor = d;
  police = p;
  citizens = cs;
  parts = rw (← e) (sym (take-drop k us));
  mafia = length-take_of_drop k us e;
  is_table = ground arith;
}

module _ (k : ℕ) (us ids : List PlayerId) (m : List (PlayerId × Role)) (t : Dealt k us m)
    (perm : Permᴰ us ids) (d : Distinct ids) where
  abbrev dealt : List PlayerId
  dealt = take k us ++ t.doctor ∷ t.police ∷ t.citizens

  dealt-Distinct : Distinct dealt
  dealt-Distinct = subst Distinct t.parts (Distinct-perm perm d)

  dealt_counts :
      (r : Role)
      → count_role (role_in m) r ids
        ≡ (if is_role Role.mafia r then length (take k us) else 0)
          + ((if is_role Role.doctor r then 1 else 0)
              + ((if is_role Role.police r then 1 else 0)
                  + (if is_role Role.citizen r then length t.citizens else 0)))
  dealt_counts r =
      sym (count_role-perm (role_in m) r perm)
      ∙ ap (count_role (role_in m) r) t.parts
      ∙ ap (λ x. count_role (role_in x) r dealt) t.is_table
      ∙ table-count (take k us) t.doctor t.police t.citizens r dealt-Distinct

  dealt_mafia : All (λ i. role_in m i ≡ Role.mafia) (take k us)
  dealt_mafia =
      subst (λ x. All (λ i. role_in x i ≡ Role.mafia) (take k us)) (sym t.is_table)
        (table-mafia (take k us) t.doctor t.police t.citizens dealt-Distinct)

  dealt_elem : All (λ i. elem i ids ≡ true) (take k us)
  dealt_elem =
      All-append_left (λ i. elem i ids ≡ true) (take k us) (t.doctor ∷ t.police ∷ t.citizens)
        (subst (All (λ i. elem i ids ≡ true)) t.parts
          (All-perm (λ i. elem i ids ≡ true) perm (All-elem ids)))

  dealt_length : length ids ≡ k + (2 + length t.citizens)
  dealt_length = omega (
    arith,
    length-perm perm,
    ap length t.parts,
    length-append (take k us) (t.doctor ∷ t.police ∷ t.citizens),
    t.mafia,
  )

All-get_or :
    (P : PlayerId → Type 0) (us : List PlayerId) (k : ℕ)
    → All P us
    → k < length us
    → P (get_or us k nobody)
All-get_or P [] k h lt = absurd (omega arith)
All-get_or P (u ∷ us) zero h lt = h.0
All-get_or P (u ∷ us) (suc k) h lt = All-get_or P us k h.1 (omega arith)

module _ (R : Rng) where
  open R use {Rand, shuffle, intn, intn-lt, shuffle-perm}

  -- The representative is one of the mafia.
  pick_representative_lem :
      (P : PlayerId → Type 0) (us : List PlayerId) (r : Rand)
      → All P us
      → 0 < length us
      → P (pick_representative R us r)
  unfolding pick_representative
  pick_representative_lem P us r h lt = elim (Bool-cases (ltb 1 (length us))) [
    | inl many ↦
        rw (many, pick_representative)
          (All-get_or P us (intn r (length us)).0 h (intn-lt r (length us) lt))
    | inr one ↦ rw (one, pick_representative) (All-get_or P us 0 h lt)
  ]

  -- What a successful assignment is made of.
  record Assigned (ids : List PlayerId) (o : Options) (r : Rand) (asg : Assignments) : Type 0 where
    valid : validate_options o (pos (length ids)) ≡ none
    roles : deal (pos_part o.mafia_count) (shuffle r ids).0 ≡ some asg.player_roles
    cohort : asg.mafia_ids ≡ take (pos_part o.mafia_count) (shuffle r ids).0
    drawn : Rand
    leader :
        asg.representative_id
        ≡ pick_representative R (take (pos_part o.mafia_count) (shuffle r ids).0) drawn

  Assigned-of :
      (pool : KeywordPool) (ids : List PlayerId) (o : Options) (r : Rand) {asg : Assignments}
      → assign R pool ids o r ≡ ok asg
      → Assigned ids o r asg
  unfolding assign after_validation with_roles with_keywords
  Assigned-of pool ids o r {asg} h = record {
    valid = ground arith;
    roles = ground arith;
    cohort = ground arith;
    drawn = (pick_keywords R pool (shuffle r ids).1).1;
    leader = ground arith;
  }

  -- If `Assign` succeeds for distinct ids, with a mafia count that is a 64-bit number, the options
  -- meet the rules; as many ids as the options say have the mafia's role, one is the doctor, one the
  -- police, and all others are citizens; and the representative is among the ids, with the mafia's
  -- role.
  pub assign_counts :
      (pool : KeywordPool) (ids : List PlayerId) (o : Options) (r : Rand) {asg : Assignments}
      → Distinct ids
      → IsInt64 o.mafia_count
      → assign R pool ids o r ≡ ok asg
      → IsValid o (length ids)
        × (count_role (role_in asg.player_roles) Role.mafia ids ≡ pos_part o.mafia_count)
        × (count_role (role_in asg.player_roles) Role.doctor ids ≡ 1)
        × (count_role (role_in asg.player_roles) Role.police ids ≡ 1)
        × (count_role (role_in asg.player_roles) Role.citizen ids + pos_part o.mafia_count + 2
            ≡ length ids)
        × (role_in asg.player_roles asg.representative_id ≡ Role.mafia)
        × (elem asg.representative_id ids ≡ true)
  unfolding role_dec
  assign_counts pool ids o r {asg} d w h =
      let k : ℕ = pos_part o.mafia_count in
      let us = (shuffle r ids).0 in
      let a = Assigned-of pool ids o r h in
      let v = (validate_options_iff o (length ids) w).0 a.valid in
      let t = Dealt-of k us asg.player_roles (drop k us) refl a.roles in
      let perm = shuffle-perm r ids in
      let some_mafia : 0 < length (take k us) = omega (arith, t.mafia, v.some_mafia) in
      let counts = dealt_counts k us ids asg.player_roles t perm d in
      let total = dealt_length k us ids asg.player_roles t perm d in
      (
        v,
        omega (arith, counts Role.mafia, t.mafia),
        omega (arith, counts Role.doctor),
        omega (arith, counts Role.police),
        omega (arith, counts Role.citizen, total),
        rw a.leader (
            pick_representative_lem (λ i. role_in asg.player_roles i ≡ Role.mafia) (take k us)
              a.drawn (dealt_mafia k us ids asg.player_roles t perm d) some_mafia),
        rw a.leader (
            pick_representative_lem (λ i. elem i ids ≡ true) (take k us) a.drawn
              (dealt_elem k us ids asg.player_roles t perm d) some_mafia),
      )
