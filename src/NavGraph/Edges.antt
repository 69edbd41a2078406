-- ===== src/NavGraph/Edges.antt =====
-- `Graph::add_edge` (Server_AI/Graph.cxx): edges are undirected, and counted.
use inferno_game_server.Base.{
  ℕ, zero, suc, ◌+◌, ◌≤◌, ◌<◌, ◌≡◌, ◌⊎◌, inl, inr, Option-cases, dec_lt, refl, ◌&&◌, List, [], ◌∷◌,
  ◌++◌, none, some, ok, err, arith, length, get_elem?, modify, length-modify, ◌==◌, if◌then◌else◌,
}
use inferno_game_server.NavGraph.{Vertex, Entry, State, out_of_range, at, add_edge, push_back}
use inferno_game_server.NavGraph.Invariant.{IsWellFormed, Numbered-modify, Numbered-get}

abbrev pub count_id : ℕ → List Vertex → ℕ
count_id j [] = 0
count_id j (v ∷ vs) = (if v.id == j then 1 else 0) + count_id j vs

-- How often the vertex with id `j` is in the adjacency list of index `i`.
abbrev pub edges : List Entry → ℕ → ℕ → ℕ
edges [] i j = 0
edges (e ∷ es) zero j = count_id j e.second
edges (e ∷ es) (suc i) j = edges es i j

abbrev one_if : ℕ → ℕ → ℕ → ℕ → ℕ
one_if a b i j = if i == a && j == b then 1 else 0

count_id-push :
    (j : ℕ) (vs : List Vertex) (v : Vertex)
    → count_id j (vs ++ v ∷ []) ≡ count_id j vs + (if v.id == j then 1 else 0)
count_id-push j [] v = omega arith
count_id-push j (u ∷ vs) v = omega (arith, count_id-push j vs v)

edges-modify :
    (k : ℕ) (v : Vertex) (es : List Entry) (i j : ℕ)
    → k < length es
    → edges (modify k (push_back v) es) i j ≡ edges es i j + one_if k v.id i j
edges-modify k v [] i j h = absurd (omega arith)
edges-modify zero v (e ∷ es) zero j h = ground (arith, count_id-push j e.second v)
edges-modify zero v (e ∷ es) (suc i) j h = ground arith
edges-modify (suc k) v (e ∷ es) zero j h = ground arith
edges-modify (suc k) v (e ∷ es) (suc i) j h = ground (arith, edges-modify k v es i j (omega arith))

found : (es : List Entry) (i : ℕ) → i < length es → (e : Entry) × (get_elem? es i ≡ some e)
found [] i h = absurd (omega arith)
found (e ∷ es) zero h = (e, refl)
found (e ∷ es) (suc i) h = found es i (omega arith)

missing : (es : List Entry) (i : ℕ) → length es ≤ i → get_elem? es i ≡ none
missing [] i h = refl
missing (e ∷ es) zero h = absurd (omega arith)
missing (e ∷ es) (suc i) h = missing es i (omega arith)

-- In a well-formed graph an edge between two vertices that exist is added, the graph stays well formed,
-- and the adjacency lists gain one entry in each direction (two, for an edge from a vertex to itself)
-- and nothing else.
pub add_edge-edges :
    (id_0 id_1 : ℕ) (s : State)
    → IsWellFormed s
    → id_0 < length s.graph
    → id_1 < length s.graph
    → (s' : State) × (add_edge id_0 id_1 s ≡ ok s')
      × IsWellFormed s'
      × ((i j : ℕ)
          → edges s'.graph i j ≡ edges s.graph i j + one_if id_0 id_1 i j + one_if id_1 id_0 i j)
unfolding add_edge
add_edge-edges id_0 id_1 s w h0 h1 =
    let (e0, f0) = found s.graph id_0 h0 in
    let (e1, f1) = found s.graph id_1 h1 in
    let g = modify id_0 (push_back e1.first) s.graph in
    let n0 = Numbered-get 0 id_0 s.graph w.numbered f0 in
    let n1 = Numbered-get 0 id_1 s.graph w.numbered f1 in
    let l0 = length-modify id_0 (push_back e1.first) s.graph in
    let l1 = length-modify id_1 (push_back e0.first) g in
    (
      record s { graph = modify id_1 (push_back e0.first) g },
      rw (f0, f1),
      record {
        counted = omega (arith, w.counted);
        small = w.small;
        numbered =
            Numbered-modify 0 id_1 e0.first g (Numbered-modify 0 id_0 e1.first s.graph w.numbered);
      },
      λ i j.
          let a = edges-modify id_0 e1.first s.graph i j h0 in
          let b = edges-modify id_1 e0.first g i j (omega arith) in ground (arith, a, b, n0, n1),
    )

-- An edge with an end that is no vertex throws, and leaves the graph as it was.
pub add_edge_out_of_range :
    (id_0 id_1 : ℕ) (s : State)
    → (length s.graph ≤ id_0) ⊎ (length s.graph ≤ id_1)
    → add_edge id_0 id_1 s ≡ err out_of_range
unfolding add_edge at
add_edge_out_of_range id_0 id_1 s (inl h) = rw (missing s.graph id_0 h)
add_edge_out_of_range id_0 id_1 s (inr h) = elim (Option-cases (get_elem? s.graph id_0)) [
  | inl e ↦ rw e
  | inr (a, e) ↦ rw (e, missing s.graph id_1 h)
]

-- `v` is as often a neighbour of `u` as `u` is of `v`.
abbrev pub IsUndirected : State → Type 0
IsUndirected s = (i j : ℕ) → edges s.graph i j ≡ edges s.graph j i

-- Adding any edge to a well-formed undirected graph leaves it undirected.
pub add_edge-IsUndirected :
    (id_0 id_1 : ℕ) (s s' : State)
    → IsWellFormed s
    → IsUndirected s
    → add_edge id_0 id_1 s ≡ ok s'
    → IsUndirected s'
add_edge-IsUndirected id_0 id_1 s s' w u h i j = elim (dec_lt id_0 (length s.graph)) [
  | no p ↦ cc (h, add_edge_out_of_range id_0 id_1 s (inl (omega arith)))
  | yes p ↦ elim (dec_lt id_1 (length s.graph)) [
    | no q ↦ cc (h, add_edge_out_of_range id_0 id_1 s (inr (omega arith)))
    | yes q ↦
        let (t, e, _, gained) = add_edge-edges id_0 id_1 s w p q in
        let same : t ≡ s' = cc in rw (← same) (ground (arith, gained i j, gained j i, u i j))
  ]
]
