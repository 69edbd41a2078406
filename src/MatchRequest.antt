-- ===== src/MatchRequest.antt =====
-- Linear/net_defs.cxx and serialization.cxx: the request for a match that a client sends to the match
-- maker.
use inferno_game_server.Base.{
  ℕ, zero, suc, ◌+◌, ◌≤◌, List, [], ◌∷◌, ◌++◌, Option, none, some, length, take, drop, replicate,
  leb, ◌==◌, if◌then◌else◌,
}
use inferno_game_server.Base.Int.{ℤ, pos, negsuc}
use inferno_game_server.Base.Bytes.{overlay, c_string, strlen, clear}
use mathlib.Core.Option
use inferno_game_server.Base.Arrays.{put}
use inferno_game_server.NavGraph.Text.{atoi}
pub mod RoundTrip
mod Examples

pub data Position : Type 0 where
  magic_hybrid physical_hybrid support glass_cannon juggernaut fill : Position

abbrev pub position_code : Position → ℕ
position_code magic_hybrid = 0
position_code physical_hybrid = 1
position_code support = 2
position_code glass_cannon = 3
position_code juggernaut = 4
position_code fill = 5

-- The enumerator of an int, if there is one.
abbrev pub to_position : ℤ → Option Position
to_position (negsuc n) = none
to_position (pos n) =
    if n == 0
    then some magic_hybrid
    else if n == 1
    then some physical_hybrid
    else if n == 2
    then some support
    else if n == 3
    then some glass_cannon
    else if n == 4
    then some juggernaut
    else if n == 5
    then some fill
    else none

-- char token[64]; char username[16]; position pos;
pub record MatchRequest : Type 0 where
  pub token : List ℕ
  pub username : List ℕ
  pub position : Position

-- None where `memcpy` of the name writes past its array. `auth_token` is an array, `uname` a C string.
unfoldable pub build_match_request : List ℕ → List ℕ → Position → Option MatchRequest
unfolding overlay
build_match_request auth_token uname position_req =
    if leb (length uname) 16
    then some (record {
      token = take 64 auth_token;
      username = overlay uname (replicate 16 0);
      position = position_req;
    })
    else none

-- sprintf(.., "%d", ..) of an enumerator: one digit and NUL.
abbrev pub printed : Position → List ℕ
printed p = (48 + position_code p) ∷ 0 ∷ []

-- The buffer with the three fields.
unfoldable pub written : MatchRequest → List ℕ → List ℕ
unfolding overlay
written mr buffer =
    let b1 = put 0 mr.token buffer in
    let b2 = put 64 mr.username b1 in put 80 (printed mr.position) b2

-- `memory` is what the stack holds where `uname` stands; none where `memset` of its `strlen` goes past it.
unfoldable pub serialize_match_request : List ℕ → MatchRequest → List ℕ → Option (List ℕ)
unfolding written strlen clear overlay
serialize_match_request memory mr buffer =
    Option.map
      (λ n.
        let uname = overlay (take 16 mr.username) (clear n memory) in
        written (record mr { username = uname }) buffer)
      (strlen memory)

abbrev pub received : List ℕ → List ℕ → Option Position → Option MatchRequest
received token username none = none
received token username (some p) =
    some (record { token = token; username = username; position = p })

abbrev pub parsed : Option (List ℕ) → Option Position
parsed none = none
parsed (some s) = to_position (atoi s)

-- None where the text behind the name is not that of an enumerator, or does not end.
unfoldable pub deserialize_match_request : List ℕ → Option MatchRequest
unfolding atoi c_string
deserialize_match_request buffer =
    received (take 64 buffer) (take 16 (drop 64 buffer)) (parsed (c_string (drop 80 buffer)))
