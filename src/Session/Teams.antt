-- ===== src/Session/Teams.antt =====
-- The teams of a session, over any history of `addClient` and `removeClient` (Session.cxx).
use inferno_game_server.Base.{
  ℕ, suc, ◌+◌, ◌≤◌, ◌≡◌, Bool, true, false, List, [], ◌∷◌, ◌++◌, arith, length, length-append, ltb,
  ◌==◌, if◌then◌else◌,
}
use inferno_game_server.Session.{Team, red, blue, Clients, add_client, remove, remove_client}

abbrev pub team_of : Team → Clients → List ℕ
team_of red t = t.red_clients
team_of blue t = t.blue_clients

abbrev pub larger : ℕ → ℕ → ℕ
larger a b = if ltb a b then b else a

-- No team has more clients than its size and than the team that the session began with.
abbrev pub IsWithin : ℕ → Clients → Clients → Type 0
IsWithin team_size began t =
    (length t.red_clients ≤ larger team_size (length began.red_clients))
    × (length t.blue_clients ≤ larger team_size (length began.blue_clients))

-- The teams that a session can come to from those that its constructor is given.
pub data Reachable (team_size : ℕ) (began : Clients) : Clients → Type 0 where
  start : Reachable team_size began began
  added :
      (c : ℕ) (team : Team) (t : Clients)
      → Reachable team_size began t
      → Reachable team_size began (add_client team_size c team t).0
  removed :
      (c : ℕ) (t : Clients)
      → Reachable team_size began t
      → Reachable team_size began (remove_client c t)

add_client-IsWithin :
    (team_size c : ℕ) (team : Team) (began t : Clients)
    → IsWithin team_size began t
    → IsWithin team_size began (add_client team_size c team t).0
unfolding add_client
add_client-IsWithin team_size c red began t h = ground (arith, length-append t.red_clients (c ∷ []))
add_client-IsWithin team_size c blue began t h =
    ground (arith, length-append t.blue_clients (c ∷ []))

length-remove : (c : ℕ) (cs : List ℕ) → length (remove c cs) ≤ length cs
unfolding remove
length-remove c [] = omega arith
length-remove c (x ∷ cs) = ground (arith, length-remove c cs)

-- Whatever clients are added and removed, no team ever has more clients than its size, unless it had them
-- from the constructor, which takes any two lists: then it never has more than it had there.
pub Reachable-IsWithin :
    (team_size : ℕ) (began t : Clients) → Reachable team_size began t → IsWithin team_size began t
unfolding remove_client
Reachable-IsWithin team_size began _ start = ground arith
Reachable-IsWithin team_size began _ (added c team t r) =
    add_client-IsWithin team_size c team began t (Reachable-IsWithin team_size began t r)
Reachable-IsWithin team_size began _ (removed c t r) = ground (
  arith,
  Reachable-IsWithin team_size began t r,
  length-remove c t.red_clients,
  length-remove c t.blue_clients,
)

-- How often a client is in a list.
abbrev pub occurrences : ℕ → List ℕ → ℕ
occurrences c [] = 0
occurrences c (x ∷ cs) = if x == c then suc (occurrences c cs) else occurrences c cs

occurrences-append :
    (d : ℕ) (xs ys : List ℕ) → occurrences d (xs ++ ys) ≡ occurrences d xs + occurrences d ys
occurrences-append d [] ys = omega arith
occurrences-append d (x ∷ xs) ys = ground (arith, occurrences-append d xs ys)

abbrev pub same_team : Team → Team → Bool
same_team red red = true
same_team red blue = false
same_team blue red = false
same_team blue blue = true

-- Adding a client answers true exactly if its team is not full, and then the client is in its team once
-- more; no other client gains or loses a place in either team, and nothing changes if the answer is false.
pub add_client_places :
    (team_size c d : ℕ) (team side : Team) (t : Clients)
    → let (t', answer) = add_client team_size c team t in
      (answer ≡ ltb (length (team_of team t)) team_size)
      × (occurrences d (team_of side t')
          ≡ occurrences d (team_of side t)
            + (if answer then if c == d then (if same_team team side then 1 else 0) else 0 else 0))
unfolding add_client
add_client_places team_size c d red red t =
    ground (arith, occurrences-append d t.red_clients (c ∷ []))
add_client_places team_size c d red blue t = ground arith
add_client_places team_size c d blue red t = ground arith
add_client_places team_size c d blue blue t =
    ground (arith, occurrences-append d t.blue_clients (c ∷ []))

occurrences-remove :
    (c d : ℕ) (cs : List ℕ) → occurrences d (remove c cs) ≡ (if d == c then 0 else occurrences d cs)
unfolding remove
occurrences-remove c d [] = ground arith
occurrences-remove c d (x ∷ cs) = ground (arith, occurrences-remove c d cs)

-- Removing a client takes it out of the two teams altogether, and leaves every other client its places.
pub remove_client_clears :
    (c d : ℕ) (side : Team) (t : Clients)
    → occurrences d (team_of side (remove_client c t))
      ≡ (if d == c then 0 else occurrences d (team_of side t))
unfolding remove_client
remove_client_clears c d red t = occurrences-remove c d t.red_clients
remove_client_clears c d blue t = occurrences-remove c d t.blue_clients
