-- ===== src/NavGraph.antt =====
-- Server_AI/Graph.h, Graph.cxx, Vertex.h and Vertex.cxx: the navigation graph of the game AI. A state is
-- one graph beside the static counter `Vertex::count`. A `Vertex*` is the vertex, which is constant once
-- it is made. `graph->at` throws out of range; where C++ leaves the outcome open (a double past INT_MAX
-- made an int, an uninitialised id, `atoi` of a null pointer) the result is `undefined`.
mod Distance
pub mod Text
pub mod Invariant
pub mod Edges
pub mod Closest
pub mod Parse
pub mod Files
pub mod FileEnds
pub mod Second
mod Examples
use inferno_game_server.Base.{
  ℕ, ◌+◌, ◌*◌, ◌%◌, ◌^◌, List, [], ◌∷◌, ◌++◌, Result, ok, err, ◌>>=◌, or_err, get_elem?, modify,
  leb, ltb, if◌then◌else◌,
}
use inferno_game_server.Base.Int.{ℤ}
use inferno_game_server.NavGraph.Distance.{gap, isqrt}

pub record Vertex : Type 0 where
  pub x : ℤ
  pub y : ℤ
  pub z : ℤ
  pub id : ℕ  -- uint16_t

-- A vertex of the graph with its adjacency list.
pub record Entry : Type 0 where
  pub first : Vertex
  pub second : List Vertex

pub record State : Type 0 where
  pub count : ℕ  -- uint16_t
  pub graph : List Entry

pub data Fault : Type 0 where
  out_of_range undefined : Fault

abbrev pub int_max : ℕ
int_max = 2147483647

-- Vertex::Vertex: the vertex takes the counter for its id, and the counter steps on.
unfoldable pub new_vertex : ℤ → ℤ → ℤ → ℕ → Vertex × ℕ
new_vertex x0 y0 z0 count = (record { x = x0; y = y0; z = z0; id = count }, (count + 1) % 65536)

unfoldable pub get_coords : Vertex → ℤ × ℤ × ℤ
get_coords v = (v.x, v.y, v.z)

unfoldable pub get_id : Vertex → ℕ
get_id v = v.id

unfoldable pub new_graph : ℕ → State
new_graph count = record { count = count; graph = [] }

unfoldable pub add_vertex : ℤ → ℤ → ℤ → State → State × ℕ
unfolding new_vertex get_id
add_vertex x y z s =
    let (v, count') = new_vertex x y z s.count in
    (record { count = count'; graph = s.graph ++ record { first = v; second = [] } ∷ [] }, get_id v)

-- graph->at(id)
unfoldable pub at : State → ℕ → Result Fault Entry
at s id = or_err out_of_range (get_elem? s.graph id)

abbrev pub push_back : Vertex → Entry → Entry
push_back v e = record e { second = e.second ++ v ∷ [] }

unfoldable pub add_edge : ℕ → ℕ → State → Result Fault State
unfolding at
add_edge id_0 id_1 s = do
  e0 ← at s id_0
  e1 ← at s id_1
  let g = modify id_0 (push_back e1.first) s.graph
  ok (record s { graph = modify id_1 (push_back e0.first) g })

-- sqrt(pow(..) + pow(..) + pow(..)) through an int
unfoldable pub distance_of : ℤ × ℤ × ℤ → ℤ × ℤ × ℤ → Result Fault ℕ
distance_of (x0, y0, z0) (x1, y1, z1) =
    let summation = gap x0 x1 ^ 2 + gap y0 y1 ^ 2 + gap z0 z1 ^ 2 in
    if leb summation int_max then ok (isqrt summation) else err undefined

-- get_distance(uint16_t, uint16_t)
unfoldable pub get_distance : ℕ → ℕ → State → Result Fault ℕ
unfolding at distance_of get_coords
get_distance id_0 id_1 s = do
  e0 ← at s id_0
  e1 ← at s id_1
  distance_of (get_coords e0.first) (get_coords e1.first)

-- get_distance(uint16_t, int, int, int)
unfoldable pub get_distance_to : ℕ → ℤ × ℤ × ℤ → State → Result Fault ℕ
unfolding at distance_of get_coords
get_distance_to id point s = do e ← at s id; distance_of (get_coords e.first) point

-- The loops of both `get_closest_vertex`: the first vertex that is strictly nearer than all before it.
unfoldable pub scan : (Vertex → Result Fault ℕ) → ℕ → Result Fault ℕ → List Vertex → Result Fault ℕ
unfolding get_id
scan dist min_distance closest_id [] = closest_id
scan dist min_distance closest_id (current ∷ rest) = do
  distance ← dist current
  let nearer = ltb distance min_distance
  scan dist (if nearer then distance else min_distance)
      (if nearer then ok (get_id current) else closest_id) rest

abbrev pub vertices : List Entry → List Vertex
vertices [] = []
vertices (e ∷ es) = e.first ∷ vertices es

-- get_closest_vertex(uint16_t*, uint16_t): among the neighbours, the vertex itself if it has none.
unfoldable pub get_closest_neighbour : ℕ → State → Result Fault ℕ
unfolding at scan get_distance
get_closest_neighbour vert_id s = do
  e ← at s vert_id
  scan (λ current. get_distance (get_id current) (get_id e.first) s) int_max (ok vert_id) e.second

-- get_closest_vertex(uint16_t*, int, int, int): among all vertices; with none the id is not set.
unfoldable pub get_closest_vertex : ℤ × ℤ × ℤ → State → Result Fault ℕ
unfolding scan get_distance_to
get_closest_vertex point s =
    scan (λ current. get_distance_to (get_id current) point s) int_max (err undefined)
      (vertices s.graph)
