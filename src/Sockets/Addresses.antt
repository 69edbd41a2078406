-- ===== src/Sockets/Addresses.antt =====
-- The loops over the addresses of `getaddrinfo` (Sockets/UDP_Socket.cxx).
use inferno_game_server.Base.{
  ℕ, ◌≡◌, refl, Bool, true, false, List, [], ◌∷◌, Option, none, some, err, arith, ◌==◌,
  if◌then◌else◌,
}
use inferno_game_server.Sockets.{
  undefined, Address, FdAction, opens, closes, bind_one, bind_first, open_first, initialize_server,
  initialize_client,
}

-- The descriptors that are left open, the last first.
abbrev pub left_open : List FdAction → List ℕ → List ℕ
left_open [] fds = fds
left_open (opens fd ∷ as') fds = left_open as' (fd ∷ fds)
left_open (closes fd ∷ as') [] = left_open as' []
left_open (closes fd ∷ as') (f ∷ fds) = left_open as' (if f == fd then fds else f ∷ fds)

abbrev pub to_list : Option ℕ → List ℕ
to_list none = []
to_list (some fd) = fd ∷ []

bind_one_leaves :
    (fd : Option ℕ) (binds : Bool) (rest : Option ℕ × List FdAction)
    → left_open rest.1 [] ≡ to_list rest.0
    → let r = bind_one fd binds rest in left_open r.1 [] ≡ to_list r.0
bind_one_leaves none binds rest h = h
bind_one_leaves (some fd) true rest h = refl
bind_one_leaves (some fd) false rest h = ground (arith, h)

bind_first_leaves :
    (addresses : List Address) → let r = bind_first addresses in left_open r.1 [] ≡ to_list r.0
unfolding bind_first
bind_first_leaves [] = refl
bind_first_leaves (a ∷ as') = bind_one_leaves a.fd a.binds (bind_first as') (bind_first_leaves as')

-- A server socket leaves exactly the descriptor open that it returns, and none if it fails.
pub initialize_server_leaves :
    (info : Option (List Address))
    → let r = initialize_server info in left_open r.1 [] ≡ to_list r.0
unfolding initialize_server
initialize_server_leaves none = refl
initialize_server_leaves (some addresses) = bind_first_leaves addresses

-- Where no address gives a socket.
abbrev pub HasNoSocket : List Address → Type 0
HasNoSocket [] = Unit
HasNoSocket (a ∷ as') = (a.fd ≡ none) × HasNoSocket as'

-- A client socket for a host whose addresses give no socket does not fail: it is undefined.
pub initialize_client_undefined :
    (addresses : List Address)
    → HasNoSocket addresses
    → initialize_client (some addresses) ≡ (err undefined, [])
unfolding initialize_client open_first
initialize_client_undefined [] h = refl
initialize_client_undefined (a ∷ as') h = rw h.0 (initialize_client_undefined as' h.1)
