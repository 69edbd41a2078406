-- ===== src/NavGraph/Second.antt =====
-- The life of a graph, and what a second one meets (Server_AI/Graph.cxx, Vertex.cxx): the counter of the
-- vertices is static, and is not set back.
use inferno_game_server.Base.{
  ℕ, ◌+◌, ◌<◌, ◌≡◌, ◌↔◌, inl, inr, refl, ap, sym, ◌∙◌, List, [], ◌∷◌, some, Result, ok, err, ◌>>=◌,
  Option-cases, arith, length, get_elem?, length-append,
}
use inferno_game_server.Base.Int.{ℤ}
use inferno_game_server.NavGraph.{
  Vertex, Entry, State, Fault, undefined, new_graph, add_vertex, at, get_id,
}
use inferno_game_server.NavGraph.Invariant.{Numbered, Numbered-append, Numbered-get}

-- Graph::Graph(std::vector< .. >*)
unfoldable pub graph_of : List Entry → ℕ → State
graph_of initial_graph count = record { count = count; graph = initial_graph }

-- `Graph::~Graph` deletes the vector; the counter is what is left.
unfoldable pub destroyed_graph : State → ℕ
destroyed_graph s = s.count

-- `A_star` looks its two vertices up, and ends without the `return` of a list.
unfoldable pub a_star : ℕ → ℕ → State → Result Fault (List Vertex)
unfolding at
a_star id_0 id_1 s = do v0 ← at s id_0; v1 ← at s id_1; err undefined

-- Calls of `add_vertex`, one after another.
unfoldable pub add_vertices : List (ℤ × ℤ × ℤ) → State → State
unfolding add_vertex
add_vertices [] s = s
add_vertices ((x, y, z) ∷ vs) s = add_vertices vs (add_vertex x y z s).0

-- Ids from `c` on, and a counter that has not wrapped.
record IsCounted (c : ℕ) (s : State) : Type 0 where
  pub counted : s.count ≡ c + length s.graph
  pub numbered : Numbered c s.graph

add_vertex-IsCounted :
    (c : ℕ) (x y z : ℤ) (s : State)
    → IsCounted c s
    → c + length s.graph + 1 < 65536
    → IsCounted c (add_vertex x y z s).0
      × (length (add_vertex x y z s).0.graph ≡ length s.graph + 1)
unfolding add_vertex
add_vertex-IsCounted c x y z s w h =
    let fresh : Entry = record {
      first = record { x = x; y = y; z = z; id = s.count };
      second = [];
    } in
    let grown = length-append s.graph (fresh ∷ []) in
    (
      record {
        counted = omega (arith, grown, w.counted);
        numbered = Numbered-append c s.graph fresh w.numbered w.counted;
      },
      omega (arith, grown),
    )

add_vertices-IsCounted :
    (c : ℕ) (vs : List (ℤ × ℤ × ℤ)) (s : State)
    → IsCounted c s
    → c + length s.graph + length vs < 65536
    → IsCounted c (add_vertices vs s)
      × (length (add_vertices vs s).graph ≡ length s.graph + length vs)
unfolding add_vertices
add_vertices-IsCounted c [] s w h = (w, omega arith)
add_vertices-IsCounted c ((x, y, z) ∷ vs) s w h =
    let (w', grown) = add_vertex-IsCounted c x y z s w (omega arith) in
    let (w'', all) = add_vertices-IsCounted c vs (add_vertex x y z s).0 w' (omega (arith, grown)) in
    (w'', omega (arith, all, grown))

-- An id is a place only where the first vertex has 0.
lookup-id :
    (c k : ℕ) (es : List Entry) (e : Entry)
    → Numbered c es
    → get_elem? es k ≡ some e
    → (get_elem? es (get_id e.first) ≡ some e) ↔ (c ≡ 0)
unfolding get_id
lookup-id c k es e n q =
    let id = Numbered-get c k es n q in
    (
      λ r. let id' = Numbered-get c e.first.id es n r in omega (arith, id, id'),
      λ z. let same : e.first.id ≡ k = omega (arith, id) in ap (get_elem? es) same ∙ q,
    )

at-eq-ok : (s : State) (id : ℕ) (e : Entry) → (at s id ≡ ok e) ↔ (get_elem? s.graph id ≡ some e)
unfolding at
at-eq-ok s id e = elim (Option-cases (get_elem? s.graph id)) [
  | inl q ↦ rw q (λ h. cc, λ h. cc)
  | inr (a, q) ↦ rw q (λ h. cc, λ h. cc)
]

length-zero : {A : Type 0} (xs : List A) → (length xs ≡ 0) ↔ (xs ≡ [])
length-zero [] = (λ h. refl, λ h. refl)
length-zero (x ∷ xs) = (λ h. absurd (omega arith), λ h. absurd cc)

-- Only the first graph of a program finds its vertices. Let a first graph be given vertices and be
-- destroyed, and then a second one be given vertices, fewer than 65536 together. Then a vertex of
-- the second graph, at whatever place, is found under the id that it was given if and only if the
-- first graph had none; otherwise `at` finds another one or throws.
pub second_graph_lookup :
    (vs ws : List (ℤ × ℤ × ℤ))
    → length vs + length ws < 65536
    → let count = destroyed_graph (add_vertices vs (new_graph 0)) in
      let s = add_vertices ws (new_graph count) in
      (k : ℕ) (e : Entry)
      → get_elem? s.graph k ≡ some e
      → (at s (get_id e.first) ≡ ok e) ↔ (vs ≡ [])
unfolding destroyed_graph new_graph
second_graph_lookup vs ws h k e q =
    let start : IsCounted 0 (new_graph 0) = record { counted = refl; numbered = tt } in
    let (w, all) = add_vertices-IsCounted 0 vs (new_graph 0) start (omega arith) in
    let c = (add_vertices vs (new_graph 0)).count in
    let number : c ≡ length vs = omega (arith, all, w.counted) in
    let start' : IsCounted c (new_graph c) = record { counted = omega arith; numbered = tt } in
    let (w', _) = add_vertices-IsCounted c ws (new_graph c) start' (omega (arith, number)) in
    let s = add_vertices ws (new_graph c) in
    let looked = at-eq-ok s (get_id e.first) e in
    let placed = lookup-id c k s.graph e w'.numbered q in
    let none_made = length-zero vs in
    (
      λ r. none_made.0 (sym number ∙ placed.0 (looked.0 r)),
      λ z. looked.1 (placed.1 (number ∙ none_made.1 z)),
    )
