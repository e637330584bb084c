-- ===== src/Ws/Registry/Bind.antt =====
-- The three indices agree once a client plays a player.
use mafia_game_party.Prelude.{
  true, none, some, PlayerId, nobody, lookup, lookup-insert, ◌≡◌, ◌≢◌, arith,
}
use mafia_game_party.Ws.Protocol.{ClientId}
use mafia_game_party.Ws.Registry.{
  Registry, is_public, member, exclude, delete, drop_entry, remove, bind_player,
}
use mafia_game_party.Ws.Registry.Indices.{
  IsIndexed, member-exclude, listed-insert, listed-delete, lookup-delete, lookup-listed,
}

module _ (i : ClientId) (r : Registry) (v : IsIndexed r) where
  -- A public client becomes a player that no client plays yet.
  pub bind_player-IsIndexed :
      (p : PlayerId)
      → member i r.by_id ≡ true
      → is_public (r.clients i).kind ≡ true
      → p ≢ nobody
      → lookup p r.by_player_id ≡ none
      → IsIndexed (bind_player i p r).0
  unfolding bind_player
  bind_player-IsIndexed p reg pub_i n e = record {
    public_index = λ j. ground (arith, e, member-exclude i j r.publics, v.public_index j);
    entry_registered =
        λ q j h. ground (arith, e, listed-insert p q i j r.by_player_id, v.entry_registered q j);
    entry_player =
        λ q j h. ground (arith, e, listed-insert p q i j r.by_player_id, v.entry_player q j);
    entry_bound = λ q j h.
        ground
          (arith, e, listed-insert p q i j r.by_player_id, v.entry_bound q j, v.entry_player q j);
    has_entry = λ j h k. ground (
      arith,
      e,
      lookup-insert p p i r.by_player_id,
      lookup-insert p (r.clients j).player_id i r.by_player_id,
      v.has_entry j,
    );
    unbound = λ j h. ground (arith, v.unbound j);
    bound = λ j h. ground (arith, v.bound j);
  }

  -- The client that played it before is evicted.
  pub bind_player-remove-IsIndexed :
      (p : PlayerId) (k : ClientId)
      → member i r.by_id ≡ true
      → is_public (r.clients i).kind ≡ true
      → p ≢ nobody
      → lookup p r.by_player_id ≡ some k
      → ((bind_player i p r).1 ≡ some k) × IsIndexed (remove k (bind_player i p r).0).0
  unfolding bind_player remove drop_entry
  bind_player-remove-IsIndexed p k reg pub_i n e =
      let m = delete p r.by_player_id in
      let old = lookup-listed p k r.by_player_id e in
      let in_ids = v.entry_registered p k old in
      let plays = v.entry_player p k old in
      let plays_p = v.entry_bound p k old in
      (
        ground (arith, e, in_ids, plays, plays_p),
        record {
          public_index = λ j. ground (
            arith,
            e,
            in_ids,
            plays,
            plays_p,
            lookup-insert p p i m,
            member-exclude i j r.publics,
            member-exclude k j r.by_id,
            member-exclude k j (exclude i r.publics),
            v.public_index j,
          );
          entry_registered = λ q j h. ground (
            arith,
            e,
            in_ids,
            plays,
            plays_p,
            lookup-insert p p i m,
            listed-insert p q i j m,
            listed-delete p q j r.by_player_id,
            member-exclude k j r.by_id,
            v.entry_registered q j,
            v.entry_bound q j,
          );
          entry_player = λ q j h. ground (
            arith,
            e,
            in_ids,
            plays,
            plays_p,
            lookup-insert p p i m,
            listed-insert p q i j m,
            listed-delete p q j r.by_player_id,
            v.entry_player q j,
          );
          entry_bound = λ q j h. ground (
            arith,
            e,
            in_ids,
            plays,
            plays_p,
            lookup-insert p p i m,
            listed-insert p q i j m,
            listed-delete p q j r.by_player_id,
            v.entry_bound q j,
            v.entry_player q j,
          );
          has_entry = λ j h l. ground (
            arith,
            e,
            in_ids,
            plays,
            plays_p,
            lookup-insert p p i m,
            lookup-insert p (r.clients j).player_id i m,
            lookup-delete p (r.clients j).player_id r.by_player_id,
            member-exclude k j r.by_id,
            v.has_entry j,
          );
          unbound = λ j h. ground (arith, v.unbound j);
          bound = λ j h. ground (arith, v.bound j);
        },
      )
