-- ===== src/MatchServer/Examples.antt =====
-- The theorems about the match server on small inputs.
use inferno_game_server.Base.{
  ◌≡◌, refl, true, List, [], ◌∷◌, ◌++◌, Option, none, ltb, inl, inr, ◌⊎◌, Bool-cases, if◌then◌else◌,
  some, length, replicate, All,
}
use inferno_game_server.Base.Int.{pos}
use inferno_game_server.MatchServer.{
  State, add_client, recalculate_elo, Packet, SpscQueue, Pipeline,
}
use inferno_game_server.MatchServer.Rating.{Reachable, start, added}
use inferno_game_server.MatchServer.Queue.{IsQueue, Turn, receives, converts, run}
use inferno_game_server.MatchServer.Traffic.{attack_text, NotUnderstood, attacks_meaningless}

abbrev beginner : State
beginner = record { clients = pos 1200 ∷ []; server_elo = pos 1200 }

beginner-Reachable : Reachable (pos 0) beginner
unfolding add_client recalculate_elo
beginner-Reachable =
    added (pos 1200) (record { clients = []; server_elo = pos 0 }) beginner true start refl

-- A queue that holds 2000 packets at most.
abbrev bounded_push : Packet → List Packet → List Packet
bounded_push p q = if ltb (length q) 2000 then q ++ p ∷ [] else q

abbrev list_pop : List Packet → Option (Packet × List Packet)
list_pop [] = none
list_pop (p ∷ q) = some (p, q)

abbrev bounded : SpscQueue (List Packet)
bounded = record { push = bounded_push; pop = list_pop }

list_pop-first : (p : Packet) (q q' : List Packet) → list_pop q ≡ some (p, q') → q ≡ p ∷ q'
list_pop-first p [] q' e = cc
list_pop-first p (x ∷ q) q' e = cc

bounded_push-cases :
    (p : Packet) (q : List Packet) → (bounded_push p q ≡ q) ⊎ (bounded_push p q ≡ q ++ p ∷ [])
bounded_push-cases p q = elim (Bool-cases (ltb (length q) 2000)) [
  | inl e ↦ inr (rw e refl)
  | inr e ↦ inl (rw e refl)
]

abbrev bounded_laws : IsQueue bounded
bounded_laws = record {
  contents = λ q. q;
  pushed = bounded_push-cases;
  taken_first = list_pop-first;
}

abbrev cleared : Pipeline (List Packet)
cleared = record {
  current_client = 0;
  buffer = replicate 1024 0;
  queue = [];
  current_packet = record { address = 0; data_bytes = [] };
}

abbrev attacking : List Turn
attacking =
    receives (some (5, attack_text))
    ∷ receives (some (6, attack_text))
    ∷ converts
    ∷ converts
    ∷ converts
    ∷ []

attacks_meaningless_example : All NotUnderstood (run bounded attacking cleared).1
attacks_meaningless_example =
    attacks_meaningless bounded bounded_laws attacking cleared refl refl
      (refl, (refl, (tt, (tt, (tt, tt)))))
