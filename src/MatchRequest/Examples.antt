-- ===== src/MatchRequest/Examples.antt =====
-- A match request on its way.
use inferno_game_server.Base.{ℕ, ◌≡◌, refl, List, [], ◌∷◌, some, none, arith, replicate}
use inferno_game_server.Base.Bytes.{overlay, strlen}
use inferno_game_server.MatchRequest.{
  juggernaut, MatchRequest, build_match_request, serialize_match_request, deserialize_match_request,
}
use inferno_game_server.MatchRequest.RoundTrip.{match_request_arrives}

abbrev request : MatchRequest
request = record {
  token = replicate 64 55;
  username = 97 ∷ 98 ∷ replicate 14 0;
  position = juggernaut;
}

request-built : build_match_request (replicate 64 55) (97 ∷ 98 ∷ []) juggernaut ≡ some request
unfolding build_match_request overlay
request-built = refl

abbrev stack_bytes : List ℕ
stack_bytes = 5 ∷ 0 ∷ replicate 14 6

match_request_arrives_example :
    ((n : ℕ)
      → strlen stack_bytes ≡ some n
      → (b : List ℕ) × (serialize_match_request stack_bytes request (replicate 82 1) ≡ some b)
        × (deserialize_match_request b ≡ some request))
    × (strlen stack_bytes ≡ none
        → serialize_match_request stack_bytes request (replicate 82 1) ≡ none)
match_request_arrives_example =
    match_request_arrives (replicate 64 55) (97 ∷ 98 ∷ []) stack_bytes juggernaut request
      (replicate 82 1) (omega arith) request-built (omega arith) (omega arith)
