-- ===== src/NavGraph/Closest.antt =====
-- Both `Graph::get_closest_vertex` (Server_AI/Graph.cxx) return a vertex at the least distance.
use inferno_game_server.Base.{
  ℕ, suc, ◌+◌, ◌^◌, ap, ◌≤◌, ◌<◌, ◌≡◌, refl, true, false, inl, inr, Bool-cases, List, [], ◌∷◌,
  Result, ok, err, arith, length, get_elem?, All, Memᴰ, ltb,
}
use inferno_game_server.Base.Int.{ℤ}
use inferno_game_server.NavGraph.Distance.{gap, isqrt-lt}
use inferno_game_server.NavGraph.{
  Vertex, Entry, State, Fault, undefined, int_max, get_coords, get_distance_to, distance_of, scan,
  vertices, get_closest_vertex,
}
use inferno_game_server.NavGraph.Invariant.{Numbered, IsWellFormed}

-- What the loop returns over `vs` from the minimum `m` and the answer `c`.
data Nearest (d : Vertex → ℕ) (m : ℕ) (c : Result Fault ℕ) (vs : List Vertex) (r : Result Fault ℕ)
    : Type 0 where
  stays : r ≡ c → All (λ u. m ≤ d u) vs → Nearest d m c vs r
  moves :
      (v : Vertex)
      → Memᴰ v vs
      → r ≡ ok v.id
      → d v < m
      → All (λ u. d v ≤ d u) vs
      → Nearest d m c vs r

All-le :
    (d : Vertex → ℕ) (a b : ℕ) (vs : List Vertex)
    → a ≤ b
    → All (λ u. b ≤ d u) vs
    → All (λ u. a ≤ d u) vs
All-le d a b [] h all = tt
All-le d a b (v ∷ vs) h all = (omega arith, All-le d a b vs h all.1)

scan-Nearest :
    (dist : Vertex → Result Fault ℕ) (d : Vertex → ℕ) (m : ℕ) (c : Result Fault ℕ)
    (vs : List Vertex)
    → All (λ u. dist u ≡ ok (d u)) vs
    → Nearest d m c vs (scan dist m c vs)
unfolding scan
scan-Nearest dist d m c [] h = stays refl tt
scan-Nearest dist d m c (v ∷ vs) h = rw h.0 (elim (Bool-cases (ltb (d v) m)) [
  | inl e ↦ rw e (near e (scan-Nearest dist d (d v) (ok v.id) vs h.1))
  | inr e ↦ rw e (far e (scan-Nearest dist d m c vs h.1))
])
  where
    near :
        ltb (d v) m ≡ true
        → Nearest d (d v) (ok v.id) vs (scan dist (d v) (ok v.id) vs)
        → Nearest d m c (v ∷ vs) (scan dist (d v) (ok v.id) vs)
    near e (stays q all) = moves v (Memᴰ.head refl) q (ground arith) (omega arith, all)
    near e (moves u i q l all) = moves u (Memᴰ.tail i) q (ground arith) (omega arith, all)

    far :
        ltb (d v) m ≡ false
        → Nearest d m c vs (scan dist m c vs)
        → Nearest d m c (v ∷ vs) (scan dist m c vs)
    far e (stays q all) = stays q (ground arith, all)
    far e (moves u i q l all) = moves u (Memᴰ.tail i) q l (ground arith, all)

abbrev pub value : Result Fault ℕ → ℕ
value (ok n) = n
value (err e) = 0

-- An id that a numbered graph gave out leads back to its vertex.
distance_by_id :
    (point : ℤ × ℤ × ℤ) (s : State) (n : ℕ) (es : List Entry)
    → Numbered n es
    → ((k j : ℕ) → j ≡ n + k → get_elem? s.graph j ≡ get_elem? es k)
    → All (λ u. get_distance_to u.id point s ≡ distance_of (get_coords u) point) (vertices es)
unfolding get_distance_to
distance_by_id point s n [] h same = tt
distance_by_id point s n (e ∷ es) h same = (
  rw (h.0, same 0 n (omega arith)),
  distance_by_id point s (suc n) es h.1 (λ k j q. same (suc k) j (omega arith)),
)

-- The distance of a vertex to a point, where the code computes one.
abbrev pub IsMeasured : ℤ × ℤ × ℤ → Vertex → Type 0
IsMeasured point u = (e : ℕ) × (distance_of (get_coords u) point ≡ ok e)

measure :
    (point : ℤ × ℤ × ℤ) (dist : Vertex → Result Fault ℕ) (vs : List Vertex)
    → All (λ u. dist u ≡ distance_of (get_coords u) point) vs
    → All (IsMeasured point) vs
    → All (λ u. dist u ≡ ok (value (distance_of (get_coords u) point))) vs
measure point dist [] a m = tt
measure point dist (v ∷ vs) a m = (ground (arith, m.0.1), measure point dist vs a.1 m.1)

-- A distance is far below the loop's first minimum.
distance-lt :
    (point : ℤ × ℤ × ℤ) (u : Vertex)
    → IsMeasured point u
    → value (distance_of (get_coords u) point) < int_max
unfolding distance_of get_coords
distance-lt (x, y, z) u (e, h) =
    ground (arith, isqrt-lt (gap u.x x ^ 2 + gap u.y y ^ 2 + gap u.z z ^ 2))

nonempty-Nearest :
    (point : ℤ × ℤ × ℤ) (vs : List Vertex) {c r : Result Fault ℕ}
    → 0 < length vs
    → All (IsMeasured point) vs
    → Nearest (λ u. value (distance_of (get_coords u) point)) int_max c vs r
    → (v : Vertex) × Memᴰ v vs
      × (r ≡ ok v.id)
      × All
          (λ u. value (distance_of (get_coords v) point) ≤ value (distance_of (get_coords u) point))
          vs
nonempty-Nearest point [] h m n = absurd (omega arith)
nonempty-Nearest point (v ∷ vs) h m (stays q all) =
    absurd (omega (arith, distance-lt point v m.0, all.0))
nonempty-Nearest point (v ∷ vs) h m (moves u i q l all) = (u, i, q, all)

length-vertices : (es : List Entry) → length (vertices es) ≡ length es
length-vertices [] = refl
length-vertices (e ∷ es) = ap suc (length-vertices es)

-- In a well-formed graph that has a vertex, and whose distances to the point are all computed, the
-- search returns the id of a vertex of the graph at the least of these distances.
pub closest_vertex_minimal :
    (point : ℤ × ℤ × ℤ) (s : State)
    → IsWellFormed s
    → 0 < length s.graph
    → All (IsMeasured point) (vertices s.graph)
    → (v : Vertex) × Memᴰ v (vertices s.graph)
      × (get_closest_vertex point s ≡ ok v.id)
      × All
          (λ u. value (distance_of (get_coords v) point) ≤ value (distance_of (get_coords u) point))
          (vertices s.graph)
unfolding get_closest_vertex
closest_vertex_minimal point s w h m =
    let dist = λ (u : Vertex). get_distance_to u.id point s in
    let known =
      distance_by_id point s 0 s.graph w.numbered (λ k j q. ap (get_elem? s.graph) (omega arith)) in
    nonempty-Nearest point (vertices s.graph) (omega (arith, length-vertices s.graph)) m (
      scan-Nearest dist (λ u. value (distance_of (get_coords u) point)) int_max (err undefined)
        (vertices s.graph) (measure point dist (vertices s.graph) known m))
