-- ===== src/Ws/Registry/Indices.antt =====
-- The three indices of the clients agree.
use mafia_game_party.Prelude.{
  Bool, true, false, ◌&&◌, none, some, List, [], ◌∷◌, PlayerId, nobody, ◌===◌, if◌then◌else◌,
  lookup, insert, ◌≡◌, ◌≢◌, refl, ◌⊎◌, inl, inr, arith, Option-cases,
}
use mafia_game_party.Ws.Protocol.{ClientId}
use mafia_game_party.Ws.Registry.{
  new_client, new_registry, Registry, is_public, member, include, exclude, delete, drop_entry, add,
  remove, unbind_player,
}

-- Whether the index of the players has an entry.
unfoldable pub listed : PlayerId → ClientId → List (PlayerId × ClientId) → Bool
listed p i [] = false
listed p i ((q, j) ∷ m) = if q === p && j === i then true else listed p i m

-- The public index has the registered clients that are public. The index of the players has only
-- registered players, each under its own player, and has every one. Exactly the players have a
-- player's id.
pub record IsIndexed (r : Registry) : Type 0 where
  pub public_index :
      (i : ClientId) → member i r.publics ≡ (member i r.by_id && is_public (r.clients i).kind)
  pub entry_registered :
      (p : PlayerId) (i : ClientId) → listed p i r.by_player_id ≡ true → member i r.by_id ≡ true
  pub entry_player :
      (p : PlayerId) (i : ClientId)
      → listed p i r.by_player_id ≡ true
      → is_public (r.clients i).kind ≡ false
  pub entry_bound :
      (p : PlayerId) (i : ClientId) → listed p i r.by_player_id ≡ true → (r.clients i).player_id ≡ p
  pub has_entry :
      (i : ClientId)
      → member i r.by_id ≡ true
      → is_public (r.clients i).kind ≡ false
      → lookup (r.clients i).player_id r.by_player_id ≡ some i
  pub unbound :
      (i : ClientId) → is_public (r.clients i).kind ≡ true → (r.clients i).player_id ≡ nobody
  pub bound :
      (i : ClientId) → is_public (r.clients i).kind ≡ false → (r.clients i).player_id ≢ nobody

member-include :
    (i j : ClientId) (js : List ClientId)
    → member j (include i js) ≡ (if i === j then true else member j js)
unfolding member include
member-include i j js = ground arith

pub member-exclude :
    (i j : ClientId) (js : List ClientId)
    → member j (exclude i js) ≡ (if i === j then false else member j js)
unfolding member exclude
member-exclude i j [] = ground arith
member-exclude i j (k ∷ js) = ground (arith, member-exclude i j js)

pub listed-delete :
    (p q : PlayerId) (i : ClientId) (m : List (PlayerId × ClientId))
    → listed q i (delete p m) ≡ (if p === q then false else listed q i m)
unfolding listed delete
listed-delete p q i [] = ground arith
listed-delete p q i ((s, j) ∷ m) = ground (arith, listed-delete p q i m)

pub lookup-delete :
    (p q : PlayerId) (m : List (PlayerId × ClientId))
    → lookup q (delete p m) ≡ (if p === q then none else lookup q m)
unfolding lookup delete
lookup-delete p q [] = ground arith
lookup-delete p q ((s, j) ∷ m) = ground (arith, lookup-delete p q m)

pub lookup-listed :
    (p : PlayerId) (i : ClientId) (m : List (PlayerId × ClientId))
    → lookup p m ≡ some i
    → listed p i m ≡ true
unfolding listed lookup
lookup-listed p i [] h = ground arith
lookup-listed p i ((q, j) ∷ m) h = ground (arith, lookup-listed p i m)

pub missing-listed :
    (p : PlayerId) (i : ClientId) (m : List (PlayerId × ClientId))
    → lookup p m ≡ none
    → listed p i m ≡ false
unfolding listed lookup
missing-listed p i [] h = refl
missing-listed p i ((q, j) ∷ m) h = ground (arith, missing-listed p i m)

pub listed-insert :
    (p q : PlayerId) (i j : ClientId) (m : List (PlayerId × ClientId))
    → listed q j (insert p i m) ≡ true
    → ((p ≡ q) × (i ≡ j)) ⊎ (listed q j m ≡ true)
unfolding listed insert
listed-insert p q i j [] h = ground arith
listed-insert p q i j ((s, k) ∷ m) h = ground (arith, listed-insert p q i j m)

pub new_registry-IsIndexed : IsIndexed new_registry
unfolding new_registry new_client member listed
new_registry-IsIndexed = record {
  public_index = λ i. refl;
  entry_registered = λ p i h. ground arith;
  entry_player = λ p i h. ground arith;
  entry_bound = λ p i h. ground arith;
  has_entry = λ i h k. ground arith;
  unbound = λ i h. refl;
  bound = λ i h. ground arith;
}

-- A new client under an id that no registered client has.
pub add-IsIndexed :
    (i : ClientId) (r : Registry)
    → IsIndexed r
    → member i r.by_id ≡ false
    → IsIndexed (add i new_client r)
unfolding add new_client
add-IsIndexed i r v fresh = record {
  public_index = λ j.
      ground (arith, member-include i j r.publics, member-include i j r.by_id, v.public_index j);
  entry_registered = λ p j h. ground (arith, member-include i j r.by_id, v.entry_registered p j h);
  entry_player = λ p j h. ground (arith, v.entry_registered p j h, v.entry_player p j h);
  entry_bound = λ p j h. ground (arith, v.entry_registered p j h, v.entry_bound p j h);
  has_entry = λ j h k. ground (arith, member-include i j r.by_id, v.has_entry j);
  unbound = λ j h. ground (arith, v.unbound j);
  bound = λ j h. ground (arith, v.bound j);
}

module _ (i : ClientId) (r : Registry) (v : IsIndexed r) where
  abbrev left_entries : List (PlayerId × ClientId)
  left_entries = drop_entry (r.clients i).player_id i r.by_player_id

  -- No entry of the client is left, and the others are.
  dropped_listed :
      (q : PlayerId) (j : ClientId)
      → listed q j left_entries ≡ true
      → (listed q j r.by_player_id ≡ true) × (i ≢ j)
  unfolding drop_entry
  dropped_listed q j h =
      let p = (r.clients i).player_id in
      elim (Option-cases (lookup p r.by_player_id)) [
        | inl e ↦ ground (
          arith,
          e,
          listed-delete p q j r.by_player_id,
          v.entry_bound q j,
          v.entry_player q j,
          v.entry_registered q j,
          v.has_entry j,
          v.bound j,
        )
        | inr (k, e) ↦ ground (
          arith,
          e,
          listed-delete p q j r.by_player_id,
          v.entry_bound q j,
          v.entry_player q j,
          v.entry_registered q j,
          v.has_entry j,
          v.bound j,
        )
      ]

  dropped_lookup :
      (q : PlayerId) (j : ClientId)
      → lookup q r.by_player_id ≡ some j
      → i ≢ j
      → lookup q left_entries ≡ some j
  unfolding drop_entry
  dropped_lookup q j h n =
      let p = (r.clients i).player_id in
      elim (Option-cases (lookup p r.by_player_id)) [
        | inl e ↦ ground (arith, e, lookup-delete p q r.by_player_id)
        | inr (k, e) ↦ ground (arith, e, lookup-delete p q r.by_player_id)
      ]

  pub remove-IsIndexed : IsIndexed (remove i r).0
  unfolding remove
  remove-IsIndexed = record {
    public_index = λ j.
        ground (arith, member-exclude i j r.publics, member-exclude i j r.by_id, v.public_index j);
    entry_registered = λ p j h.
        ground (arith, member-exclude i j r.by_id, dropped_listed p j, v.entry_registered p j);
    entry_player = λ p j h. ground (arith, dropped_listed p j, v.entry_player p j);
    entry_bound = λ p j h. ground (arith, dropped_listed p j, v.entry_bound p j);
    has_entry = λ j h k. ground (
      arith,
      member-exclude i j r.by_id,
      v.has_entry j,
      dropped_lookup (r.clients j).player_id j,
    );
    unbound = λ j h. ground (arith, v.unbound j);
    bound = λ j h. ground (arith, v.bound j);
  }

  pub unbind_player-IsIndexed : member i r.by_id ≡ true → IsIndexed (unbind_player i r)
  unfolding unbind_player
  unbind_player-IsIndexed reg = record {
    public_index = λ j. ground (arith, member-include i j r.publics, v.public_index j);
    entry_registered = λ p j h. ground (arith, dropped_listed p j, v.entry_registered p j);
    entry_player = λ p j h. ground (arith, dropped_listed p j, v.entry_player p j);
    entry_bound = λ p j h. ground (arith, dropped_listed p j, v.entry_bound p j);
    has_entry = λ j h k. ground (arith, v.has_entry j, dropped_lookup (r.clients j).player_id j);
    unbound = λ j h. ground (arith, v.unbound j);
    bound = λ j h. ground (arith, v.bound j);
  }
