-- ===== src/ServerUtils.antt =====
-- server_utils.cxx (the copy in Linear/ has all the functions that the servers' own copies have): the
-- printing of a hash, and the loops over the addresses of `getaddrinfo`.
use inferno_game_server.Base.{
  ℕ, zero, suc, ◌+◌, ◌/◌, ◌%◌, Bool, true, false, List, [], ◌∷◌, ◌++◌, Option, none, some, ltb,
  if◌then◌else◌,
}
pub mod Hash
pub mod Frees
mod Examples

-- std::hex, for a number below 16
abbrev pub hex_digit : ℕ → ℕ
hex_digit n = if ltb n 10 then 48 + n else 87 + n

-- ss << std::hex << std::setw(2) << std::setfill('0') << (int)hash[i]
unfoldable pub print_hash : List ℕ → List ℕ
print_hash [] = []
print_hash (b ∷ bs) = hex_digit (b / 16) ∷ hex_digit (b % 16) ∷ print_hash bs

-- `sha256` is the library's digest.
unfoldable pub hash_sha_256 : (List ℕ → List ℕ) → List ℕ → List ℕ
unfolding print_hash
hash_sha_256 sha256 input = print_hash (sha256 input)

-- An address: the descriptor that `socket` gives, and whether `connect` or `bind` succeeds.
pub record Address : Type 0 where
  pub fd : Option ℕ
  pub succeeds : Bool

pub data Action : Type 0 where
  opens closes : ℕ → Action
  -- freeaddrinfo of the list
  frees : Action

abbrev pub then_do : List Action → Option ℕ × List Action → Option ℕ × List Action
then_do before r = (r.0, before ++ r.1)

abbrev pub connect_one : Option ℕ → Bool → Option ℕ × List Action → Option ℕ × List Action
connect_one none succeeds rest = rest
connect_one (some fd) true rest = (some fd, opens fd ∷ [])
connect_one (some fd) false rest = then_do (opens fd ∷ closes fd ∷ []) rest

unfoldable pub connect_first : List Address → Option ℕ × List Action
connect_first [] = (none, [])
connect_first (a ∷ as') = connect_one a.fd a.succeeds (connect_first as')

abbrev pub connected : Option ℕ × List Action → Option ℕ × List Action
connected (none, log) = (none, log)
connected (some fd, log) = (some fd, log ++ frees ∷ [])

-- The result is the descriptor, where true is returned.
unfoldable pub setup_tcp_connection : Option (List Address) → Option ℕ × List Action
unfolding connect_first
setup_tcp_connection none = (none, [])
setup_tcp_connection (some addresses) = connected (connect_first addresses)

-- Where `bind` fails the list is freed, and the loop goes on to its next address: that is read from freed
-- memory, and taken here to be what it was.
abbrev pub serve_one : Option ℕ → Bool → Option ℕ × List Action → Option ℕ × List Action
serve_one none succeeds rest = rest
serve_one (some fd) true rest = (some fd, opens fd ∷ [])
serve_one (some fd) false rest = then_do (opens fd ∷ closes fd ∷ frees ∷ []) rest

unfoldable pub serve_first : List Address → Option ℕ × List Action
serve_first [] = (none, [])
serve_first (a ∷ as') = serve_one a.fd a.succeeds (serve_first as')

unfoldable pub setup_udp_server_connection : Option (List Address) → Option ℕ × List Action
unfolding serve_first
setup_udp_server_connection none = (none, frees ∷ [])
setup_udp_server_connection (some addresses) =
    let r = serve_first addresses in (r.0, r.1 ++ frees ∷ [])
