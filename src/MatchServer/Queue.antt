-- ===== src/MatchServer/Queue.antt =====
-- The turns of `startReceiving` and `convert`, in any interleaving (Acceptor.cxx, Converter.cxx), and what
-- the queue between them is documented to do.
use inferno_game_server.Base.{ℕ, ◌≡◌, ◌⊎◌, List, [], ◌∷◌, ◌++◌, Option, none, some}
use inferno_game_server.MatchServer.{Packet, SpscQueue, Pipeline, receive, convert}

-- What Boost documents of the queue: it holds packets in order; `push` adds one at the end, or
-- changes nothing if the queue is full; and `pop` takes the first.
pub record IsQueue {Q : Type 0} (spsc : SpscQueue Q) : Type 0 where
  pub contents : Q → List Packet
  pub pushed :
      (p : Packet) (q : Q)
      → (contents (spsc.push p q) ≡ contents q) ⊎ (contents (spsc.push p q) ≡ contents q ++ p ∷ [])
  pub taken_first :
      (p : Packet) (q q' : Q) → spsc.pop q ≡ some (p, q') → contents q ≡ p ∷ contents q'

-- A turn of one of the two threads.
pub data Turn : Type 0 where
  receives : Option (ℕ × List ℕ) → Turn
  converts : Turn

module _ {Q : Type 0} where
  abbrev pub first : Option (Packet × Q) → List Packet
  first none = []
  first (some (p, q)) = p ∷ []

  module _ (spsc : SpscQueue Q) where
    -- What a turn takes out of the queue.
    abbrev pub taken : Turn → Pipeline Q → List Packet
    taken (receives r) s = []
    taken converts s = first (spsc.pop s.queue)

    abbrev pub turn : Turn → Pipeline Q → Pipeline Q
    turn (receives r) s = receive spsc r s
    turn converts s = (convert spsc s).0

    -- A run: the last state, and all that came out of the queue.
    abbrev pub run : List Turn → Pipeline Q → Pipeline Q × List Packet
    run [] s = (s, [])
    run (t ∷ ts) s = let r = run ts (turn t s) in (r.0, taken t s ++ r.1)
