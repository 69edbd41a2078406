-- ===== src/NavGraph/Invariant.antt =====
-- The ids of the vertices are their places in the vector (Server_AI/Graph.cxx takes an id for an index).
use inferno_game_server.Base.{
  ℕ, zero, suc, ◌+◌, ◌<◌, ◌≡◌, List, [], ◌∷◌, ◌++◌, some, ok, arith, length, get_elem?, modify,
  length-append, get_elem?-append_length,
}
use inferno_game_server.Base.Int.{ℤ}
use inferno_game_server.NavGraph.{Vertex, Entry, State, add_vertex, at, push_back}

-- From `n` on, in order.
abbrev pub Numbered : ℕ → List Entry → Type 0
Numbered n [] = Unit
Numbered n (e ∷ es) = (e.first.id ≡ n) × Numbered (suc n) es

-- One graph has made all vertices so far, and their ids have not wrapped.
pub record IsWellFormed (s : State) : Type 0 where
  pub counted : s.count ≡ length s.graph
  pub small : s.count < 65536
  pub numbered : Numbered 0 s.graph

pub Numbered-append :
    (n : ℕ) (es : List Entry) (e : Entry)
    → Numbered n es
    → e.first.id ≡ n + length es
    → Numbered n (es ++ e ∷ [])
Numbered-append n [] e h q = (omega arith, tt)
Numbered-append n (x ∷ es) e h q = (h.0, Numbered-append (suc n) es e h.1 (omega arith))

pub Numbered-modify :
    (n i : ℕ) (v : Vertex) (es : List Entry)
    → Numbered n es
    → Numbered n (modify i (push_back v) es)
Numbered-modify n i v [] h = tt
Numbered-modify n zero v (x ∷ es) h = h
Numbered-modify n (suc i) v (x ∷ es) h = (h.0, Numbered-modify (suc n) i v es h.1)

pub Numbered-get :
    (n i : ℕ) (es : List Entry) {e : Entry}
    → Numbered n es
    → get_elem? es i ≡ some e
    → e.first.id ≡ n + i
Numbered-get n i [] h q = cc
Numbered-get n zero (x ∷ es) h q = ground arith
Numbered-get n (suc i) (x ∷ es) h q = omega (arith, Numbered-get (suc n) i es h.1 q)

-- A vertex that is added to a well-formed graph of fewer than 65535 vertices gets the next index for its
-- id, is found under that id with no neighbours, and leaves the graph well formed.
pub add_vertex-IsWellFormed :
    (x y z : ℤ) (s : State)
    → IsWellFormed s
    → s.count < 65535
    → let (s', id) = add_vertex x y z s in
      IsWellFormed s'
      × (id ≡ length s.graph)
      × (at s' id ≡ ok (record { first = record { x = x; y = y; z = z; id = id }; second = [] }))
unfolding add_vertex at
add_vertex-IsWellFormed x y z s w h = (
  record {
    counted = omega (arith, length-append s.graph (fresh ∷ []), w.counted);
    small = omega arith;
    numbered = Numbered-append 0 s.graph fresh w.numbered (omega (arith, w.counted));
  },
  w.counted,
  rw w.counted (rw (get_elem?-append_length s.graph _)),
)
  where
    fresh : Entry
    fresh = record { first = record { x = x; y = y; z = z; id = s.count }; second = [] }
