-- ===== src/Session/HostAuthority/Seat.antt =====
-- There is one host at a time.
use mafia_game_party.Prelude.{
  Bool, true, not, ◌&&◌, Option, none, some, List, [], ◌∷◌, String, ◌===◌, id_dec, ◌≡◌, refl, ◌≢◌,
  ◌↔◌, arith,
}
use mafia_game_party.Game.Error.{ErrorCode, errf}
use mafia_game_party.Game.Engine.{err}
use mafia_game_party.Session.HostAuthority.{claim, verify, release}

-- What happens to the seat: someone claims it, or someone gives a token back.
pub data SeatCall : Type 0 where
  claimed : Option String → SeatCall
  released : String → SeatCall

unfoldable pub seat_after : List SeatCall → String → String
seat_after [] current = current
seat_after (claimed draw ∷ calls) current = seat_after calls (claim draw current).0
seat_after (released t ∷ calls) current = seat_after calls (release t current)

-- No call of the sequence gives back the token `t`.
unfoldable pub holds : String → List SeatCall → Bool
holds t [] = true
holds t (claimed draw ∷ calls) = holds t calls
holds t (released u ∷ calls) = not (u === t) && holds t calls

keeps_seat :
    (t : String) (calls : List SeatCall) → t ≢ "" → holds t calls ≡ true → seat_after calls t ≡ t
unfolding seat_after holds claim release
keeps_seat t [] n h = refl
keeps_seat t (claimed draw ∷ calls) n h = ground (arith, keeps_seat t calls n h)
keeps_seat t (released u ∷ calls) n h = ground (arith, keeps_seat t calls n)

seat_taken :
    (t u : String) (draw : Option String)
    → t ≢ ""
    → ((verify u t ≡ none) ↔ (u ≡ t))
      × ((claim draw t) ≡ (t, err (errf ErrorCode.permission_denied)))
unfolding claim verify
seat_taken t u draw n = ((λ h. ground arith, λ h. ground arith), ground arith)

claim_free : (t : String) → (claim (some t) "").0 ≡ t
unfolding claim id_dec
claim_free t = refl

-- If a claim of the free seat draws a token that is not empty, then as long as nobody gives that token
-- back, whatever else is claimed or released, exactly that token is verified as the host's, and a
-- further claim is refused and leaves the seat.
pub host_keeps_seat :
    (t : String) (calls : List SeatCall) (u : String) (draw : Option String)
    → t ≢ ""
    → holds t calls ≡ true
    → let current = seat_after calls (claim (some t) "").0 in
      ((verify u current ≡ none) ↔ (u ≡ t))
      × (claim draw current ≡ (t, err (errf ErrorCode.permission_denied)))
host_keeps_seat t calls u draw n h =
    rw (claim_free t, keeps_seat t calls n h) (seat_taken t u draw n)
