-- ===== src/ServerUtils/Frees.antt =====
-- How often the list of addresses is freed (server_utils.cxx).
use inferno_game_server.Base.{
  ℕ, suc, ◌+◌, ◌≡◌, refl, Bool, true, false, List, [], ◌∷◌, ◌++◌, Option, none, some, arith,
}
use inferno_game_server.ServerUtils.{
  Address, Action, opens, closes, frees, serve_one, serve_first, setup_udp_server_connection,
  connect_one, connect_first, connected, setup_tcp_connection,
}

abbrev pub free_count : List Action → ℕ
free_count [] = 0
free_count (frees ∷ log) = suc (free_count log)
free_count (opens fd ∷ log) = free_count log
free_count (closes fd ∷ log) = free_count log

pub free_count-append : (a b : List Action) → free_count (a ++ b) ≡ free_count a + free_count b
free_count-append [] b = omega arith
free_count-append (frees ∷ a) b = omega (arith, free_count-append a b)
free_count-append (opens fd ∷ a) b = free_count-append a b
free_count-append (closes fd ∷ a) b = free_count-append a b

-- How many sockets could not be bound before one could.
abbrev pub refusals_at : Option ℕ → Bool → ℕ → ℕ
refusals_at none succeeds rest = rest
refusals_at (some fd) true rest = 0
refusals_at (some fd) false rest = suc rest

abbrev pub refusals : List Address → ℕ
refusals [] = 0
refusals (a ∷ as') = refusals_at a.fd a.succeeds (refusals as')

serve_one_frees :
    (fd : Option ℕ) (b : Bool) (rest : Option ℕ × List Action) (n : ℕ)
    → free_count rest.1 ≡ n
    → free_count (serve_one fd b rest).1 ≡ refusals_at fd b n
serve_one_frees none b rest n h = h
serve_one_frees (some fd) true rest n h = refl
serve_one_frees (some fd) false rest n h = omega (arith, h)

serve_first_frees : (as' : List Address) → free_count (serve_first as').1 ≡ refusals as'
unfolding serve_first
serve_first_frees [] = refl
serve_first_frees (a ∷ as') =
    serve_one_frees a.fd a.succeeds (serve_first as') (refusals as') (serve_first_frees as')

connect_one_frees :
    (fd : Option ℕ) (b : Bool) (rest : Option ℕ × List Action)
    → free_count rest.1 ≡ 0
    → free_count (connect_one fd b rest).1 ≡ 0
connect_one_frees none b rest h = h
connect_one_frees (some fd) true rest h = refl
connect_one_frees (some fd) false rest h = h

connect_first_frees : (as' : List Address) → free_count (connect_first as').1 ≡ 0
unfolding connect_first
connect_first_frees [] = refl
connect_first_frees (a ∷ as') =
    connect_one_frees a.fd a.succeeds (connect_first as') (connect_first_frees as')

abbrev pub one_if : Option ℕ → ℕ
one_if none = 0
one_if (some fd) = 1

connected_frees :
    (r : Option ℕ × List Action)
    → free_count r.1 ≡ 0
    → free_count (connected r).1 ≡ one_if (connected r).0
connected_frees (none, log) h = h
connected_frees (some fd, log) h = omega (arith, h, free_count-append log (frees ∷ []))

-- The list that `getaddrinfo` gave is freed once by a TCP connection that comes about, and never by one
-- that does not; by the set-up of a UDP server it is freed once, and once more for each socket that could
-- not be bound before one could.
pub setup_frees :
    (addresses : List Address)
    → let tcp = setup_tcp_connection (some addresses) in
      (free_count tcp.1 ≡ one_if tcp.0)
      × (free_count (setup_udp_server_connection (some addresses)).1 ≡ suc (refusals addresses))
unfolding setup_tcp_connection setup_udp_server_connection
setup_frees addresses = (
  connected_frees (connect_first addresses) (connect_first_frees addresses),
  omega (
    arith,
    serve_first_frees addresses,
    free_count-append (serve_first addresses).1 (frees ∷ []),
  ),
)
