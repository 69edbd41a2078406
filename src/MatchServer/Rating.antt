-- ===== src/MatchServer/Rating.antt =====
-- How many clients a match takes, and its rating (MatchServer.cxx).
use native.Mathlib.Nat.{div-le_self, le-div_iff_mul-le}
use inferno_game_server.Base.{
  ℕ, ◌+◌, ◌-◌, ◌/◌, ◌≤◌, ◌<◌, ◌≡◌, inl, inr, refl, subst, Bool, false, List, [], ◌∷◌, Option, none,
  some, arith, ◌==◌, Bool-cases, length, length-append,
}
use inferno_game_server.Base.Int.{ℤ, pos, negsuc, ◌+ℤ◌, ◌-ℤ◌}
use inferno_game_server.MatchServer.{
  State, to_int, recalculate_elo, with_elo, add_client, get_client_count,
}

-- A match under a history of `addClient` calls.
pub data Reachable (elo : ℤ) : State → Type 0 where
  start : Reachable elo (record { clients = []; server_elo = elo })
  added :
      (c : ℤ) (s s' : State) (answer : Bool)
      → Reachable elo s
      → add_client c s ≡ some (s', answer)
      → Reachable elo s'

with_elo-clients :
    (cs : List ℤ) (elo : Option ℤ) (s : State) (answer : Bool)
    → with_elo cs elo ≡ some (s, answer)
    → cs ≡ s.clients
with_elo-clients cs none s answer e = cc
with_elo-clients cs (some elo) s answer e = ground arith

to_int_fits : (n : ℕ) → n < 2147483648 → to_int (pos n) ≡ some (pos n)
unfolding to_int
to_int_fits n h = ground arith

not_one : (size : ℕ) → 2 ≤ size → (size == 1) ≡ false
not_one size h = ground arith

add_client-bound :
    (c : ℤ) (s s' : State) (answer : Bool)
    → length s.clients ≤ 10
    → add_client c s ≡ some (s', answer)
    → length s'.clients ≤ 10
unfolding add_client
add_client-bound c s s' answer h e = elim (Bool-cases (length s.clients == 10)) [
  | inl full ↦ let same : s ≡ s' = ground arith in subst (λ t. length t.clients ≤ 10) same h
  | inr room ↦
      subst (λ cs. length cs ≤ 10) (with_elo-clients _ _ s' answer (rw room at e))
        (ground (arith, length-append s.clients (c ∷ [])))
]

-- A match never has more than ten clients.
pub Reachable-bound : (elo : ℤ) (s : State) → Reachable elo s → get_client_count s ≤ 10
unfolding get_client_count
Reachable-bound elo _ start = omega arith
Reachable-bound elo _ (added c s s' answer r e) =
    add_client-bound c s s' answer (Reachable-bound elo s r) e

sub_pos : (a b : ℕ) → b ≤ a → pos a -ℤ pos b ≡ pos (a - b)
unfolding ◌-ℤ◌
sub_pos a b h = ground arith

add_pos : (a b : ℕ) → pos a +ℤ pos b ≡ pos (a + b)
unfolding ◌+ℤ◌
add_pos a b = ground arith

-- For ratings of an int that are not negative: a client that is rated at least as high as the match moves
-- the rating of two or more clients up towards its own, by the quotient of the difference and their
-- number, and never past it.
pub recalculate_elo_raises :
    (size : ℕ) (server new : ℕ)
    → 2 ≤ size
    → server ≤ new
    → new < 2147483648
    → (elo : ℕ) × (recalculate_elo size (pos new) (pos server) ≡ some (pos elo))
      × (elo ≡ server + (new - server) / size)
      × (server ≤ elo)
      × (elo ≤ new)
unfolding recalculate_elo
recalculate_elo_raises size server new h k b =
    let addition = (new - server) / size in
    let q = div-le_self (new - server) size in
    (
      server + addition,
      rw (not_one size h, sub_pos new server k, to_int_fits (new - server) (omega arith))
          (rw (to_int_fits addition (omega (arith, q)), add_pos server addition)
            (to_int_fits (server + addition) (omega (arith, q)))),
      refl,
      omega (arith, q),
      omega (arith, q),
    )

to_int_negative : (n : ℕ) → n < 2147483648 → to_int (negsuc n) ≡ some (negsuc n)
unfolding to_int
to_int_negative n h = ground arith

to_int_large : (n : ℕ) → 2147483648 ≤ n → to_int (pos n) ≡ none
unfolding to_int
to_int_large n h = ground arith

sub_negative : (a b : ℕ) → a < b → pos a -ℤ pos b ≡ negsuc (b - a - 1)
unfolding ◌-ℤ◌
sub_negative a b h = ground arith

-- For ratings of an int that are not negative: a client that is rated lower than a match of two to ten
-- clients makes the code undefined: the difference is divided as an unsigned number, and the quotient does
-- not fit an int.
pub recalculate_elo_undefined :
    (size : ℕ) (server new : ℕ)
    → 2 ≤ size
    → size ≤ 10
    → new < server
    → server < 2147483648
    → recalculate_elo size (pos new) (pos server) ≡ none
unfolding recalculate_elo
recalculate_elo_undefined size server new h k l b =
    let unsigned = 18446744073709551615 - (server - new - 1) in
    let large =
      (le-div_iff_mul-le {k = size} {x = 2147483648} {y = unsigned} (omega arith)).1
        (omega arith) in
    rw (not_one size h, sub_negative new server l, to_int_negative (server - new - 1) (omega arith))
      (rw (to_int_large (unsigned / size) large) refl)
