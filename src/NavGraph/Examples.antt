-- ===== src/NavGraph/Examples.antt =====
-- The theorems about the navigation graph on a graph of two vertices.
use inferno_game_server.Base.{
  ℕ, zero, suc, ◌+◌, ◌≤◌, ◌≡◌, ◌↔◌, refl, List, [], ◌∷◌, none, some, ok, arith, All, Memᴰ,
  if◌then◌else◌, ◌==◌, ◌&&◌,
}
use inferno_game_server.Base.Int.{ℤ, pos, negsuc}
use inferno_game_server.NavGraph.Distance.{gap, isqrt}
use inferno_game_server.NavGraph.Text.{strtok, atoi}
use inferno_game_server.NavGraph.{
  Vertex, State, undefined, add_edge, get_closest_vertex, vertices, distance_of, get_coords, at,
  new_vertex, add_vertex, get_id, new_graph,
}
use inferno_game_server.NavGraph.Invariant.{IsWellFormed}
use inferno_game_server.NavGraph.Edges.{IsUndirected, edges, add_edge-edges}
use inferno_game_server.NavGraph.Files.{load, throws, fails, vl_parse_exception}
use inferno_game_server.NavGraph.FileEnds.{load_fails}
use inferno_game_server.NavGraph.Closest.{IsMeasured, value, closest_vertex_minimal}
use inferno_game_server.NavGraph.Parse.{parse_al_line}
use inferno_game_server.NavGraph.Second.{add_vertices, destroyed_graph, second_graph_lookup}

abbrev origin : Vertex
origin = record { x = pos 0; y = pos 0; z = pos 0; id = 0 }

abbrev corner : Vertex
corner = record { x = pos 3; y = negsuc 3; z = pos 0; id = 1 }

abbrev pair : State
pair = record {
  count = 2;
  graph = record { first = origin; second = [] } ∷ record { first = corner; second = [] } ∷ [];
}

pair-IsWellFormed : IsWellFormed pair
pair-IsWellFormed = omega arith

add_edge-edges_example :
    (s' : State) × (add_edge 0 1 pair ≡ ok s')
    × IsWellFormed s'
    × ((i j : ℕ)
        → edges s'.graph i j
          ≡ edges pair.graph i j
            + (if i == 0 && j == 1 then 1 else 0)
            + (if i == 1 && j == 0 then 1 else 0))
add_edge-edges_example = add_edge-edges 0 1 pair pair-IsWellFormed (omega arith) (omega arith)

pair-IsUndirected : IsUndirected pair
pair-IsUndirected zero zero = refl
pair-IsUndirected zero (suc zero) = refl
pair-IsUndirected zero (suc (suc j)) = refl
pair-IsUndirected (suc zero) zero = refl
pair-IsUndirected (suc zero) (suc zero) = refl
pair-IsUndirected (suc zero) (suc (suc j)) = refl
pair-IsUndirected (suc (suc i)) zero = refl
pair-IsUndirected (suc (suc i)) (suc zero) = refl
pair-IsUndirected (suc (suc i)) (suc (suc j)) = refl

abbrev joined : State
joined = record {
  count = 2;
  graph =
      record { first = origin; second = corner ∷ [] }
      ∷ record { first = corner; second = origin ∷ [] }
      ∷ [];
}

joined_lem : add_edge 0 1 pair ≡ ok joined
unfolding add_edge
joined_lem = refl

measured : All (IsMeasured (pos 3, negsuc 3, pos 1)) (vertices pair.graph)
unfolding distance_of gap isqrt get_coords
measured = ((5, refl), ((1, refl), tt))

closest_vertex_minimal_example :
    (v : Vertex) × Memᴰ v (origin ∷ corner ∷ [])
    × (get_closest_vertex (pos 3, negsuc 3, pos 1) pair ≡ ok v.id)
    × All
        (λ u.
          value (distance_of (get_coords v) (pos 3, negsuc 3, pos 1))
          ≤ value (distance_of (get_coords u) (pos 3, negsuc 3, pos 1)))
        (origin ∷ corner ∷ [])
closest_vertex_minimal_example =
    closest_vertex_minimal (pos 3, negsuc 3, pos 1) pair pair-IsWellFormed (omega arith) measured

closest_of_pair : get_closest_vertex (pos 3, negsuc 3, pos 1) pair ≡ ok 1
unfolding get_closest_vertex gap isqrt
closest_of_pair = refl

abbrev one_two : List ℕ
one_two = b'1' ∷ b',' ∷ b'2' ∷ 10 ∷ []

-- The line "1,2" joins vertex 1 to itself.
one_two_loops : parse_al_line one_two pair ≡ add_edge 1 1 pair
unfolding parse_al_line add_edge strtok atoi
one_two_loops = refl

abbrev vertex_file : List (List ℕ)
vertex_file =
    (b'1' ∷ b',' ∷ b'2' ∷ b',' ∷ b'3' ∷ 10 ∷ []) ∷ (b'4' ∷ b',' ∷ b'5' ∷ b',' ∷ b'6' ∷ 10 ∷ []) ∷ []

load_fails_example :
    (load none none 7 pair ≡ throws vl_parse_exception)
    × (load (some vertex_file) none 3 pair ≡ fails undefined)
load_fails_example = load_fails vertex_file none 7 pair (omega arith, (omega arith, tt))

-- A first graph of one vertex, and a second one of two.
abbrev first_points : List (ℤ × ℤ × ℤ)
first_points = (pos 9, pos 9, pos 9) ∷ []

abbrev second_points : List (ℤ × ℤ × ℤ)
second_points = (pos 0, pos 0, pos 0) ∷ (pos 3, negsuc 3, pos 0) ∷ []

abbrev misnumbered : State
misnumbered =
    add_vertices second_points
      (new_graph (destroyed_graph (add_vertices first_points (new_graph 0))))

second_graph_lookup_example :
    (at misnumbered 1 ≡ ok (record { first = record origin { id = 1 }; second = [] }))
    ↔ (first_points ≡ [])
unfolding add_vertices add_vertex new_vertex get_id new_graph destroyed_graph
second_graph_lookup_example =
    second_graph_lookup first_points second_points (omega arith) 0
      (record { first = record origin { id = 1 }; second = [] }) refl
