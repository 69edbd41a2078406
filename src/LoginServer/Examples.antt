-- ===== src/LoginServer/Examples.antt =====
-- The theorems about the login server on concrete requests.
use inferno_game_server.Base.{
  ℕ, ◌+◌, ◌<◌, ◌≡◌, refl, Bool, true, false, List, [], ◌∷◌, ◌++◌, Option, none, some, ok, arith,
  replicate, drop, if◌then◌else◌,
}
use inferno_game_server.Base.Int.{pos}
use inferno_game_server.Base.Bytes.{c_string, same, overlay}
use inferno_game_server.LoginServer.Secure.{
  SslLibrary, Connection, fetch_ssl_context, fetch_diffie_hellman_handle,
}
use inferno_game_server.LoginServer.Reads.{got, read_name, read_password}
use inferno_game_server.LoginServer.Login.{Request, query, login_user}
use inferno_game_server.LoginServer.Access.{
  IsOpen, received_name, received_password, login_user_branches,
}
use inferno_game_server.LoginServer.Safety.{tokens, login_user_needs_password}
use inferno_game_server.LoginServer.Assembly.{read_password_reassembles}
use inferno_game_server.LoginServer.Signup.{Registration}
use inferno_game_server.LoginServer.Requests.{Client, Server, accepted, refused, serve}
use inferno_game_server.LoginServer.Auth.{Pass, Peer}
use inferno_game_server.Listeners.{Address}
use inferno_game_server.LoginServer.Launch.{Surroundings, fresh_server, launch, launch_serves}

abbrev library : SslLibrary
library = record {
  ctx_new = true;
  dh_new = true;
  generate_parameters = true;
  dh_check = true;
  generate_key = true;
  set_cipher_list = true;
}

abbrev pub connection : Connection
connection = record {
  library = library;
  send_port = true;
  bio_new_accept = true;
  bio_do_accept = true;
  bio_do_accept_again = true;
  ssl_new = true;
  ssl_accept = true;
}

pub connection-IsOpen : IsOpen connection
unfolding fetch_ssl_context fetch_diffie_hellman_handle
connection-IsOpen = record {
  context = refl;
  send_port = refl;
  bio_new_accept = refl;
  bio_do_accept = refl;
  bio_do_accept_again = refl;
  ssl_new = refl;
  ssl_accept = refl;
}

-- A hash for the examples, and the rows of a database.
abbrev pub hash : List ℕ → List ℕ
hash s = 7 ∷ s

abbrev rows : List ℕ → Option (List ℕ)
rows q = if same q (query (97 ∷ [])) then some (7 ∷ 112 ∷ []) else none

abbrev pub random_bytes : List ℕ
random_bytes = 9 ∷ 0 ∷ 4 ∷ []

abbrev pub ann : Request
ann = record {
  connection = connection;
  name_len = 1;
  name_reads = got (97 ∷ []) ∷ [];
  query_throws = λ q. false;
  execute_query = rows;
  pass_len = 1;
  pass_reads = got (112 ∷ []) ∷ [];
  random = some random_bytes;
  hash_sha_256 = hash;
}

pub ann-name : received_name ann ≡ some (97 ∷ [])
unfolding read_name c_string overlay
ann-name = refl

pub ann-password : received_password ann ≡ some (112 ∷ [])
unfolding read_password c_string
ann-password = refl

pub random-ends : c_string random_bytes ≡ some (9 ∷ [])
unfolding c_string
random-ends = refl

ann-token : 0 < tokens (login_user ann 14000 []).1
unfolding query same
ann-token =
    rw
      (login_user_branches ann 14000 (97 ∷ []) (112 ∷ []) random_bytes (9 ∷ []) connection-IsOpen
        ann-name ann-password refl refl random-ends)
      (omega arith)

login_user_needs_password_example :
    (uname stored password : List ℕ) × (received_name ann ≡ some uname)
    × (rows (query uname) ≡ some stored)
    × (received_password ann ≡ some password)
    × (hash password ≡ stored)
login_user_needs_password_example = login_user_needs_password ann 14000 ann-token

read_password_reassembles_example :
    read_password (pos 3) (pos 0) (replicate 64 0) (got (1 ∷ 2 ∷ []) ∷ got (3 ∷ []) ∷ [])
    ≡ ok ((1 ∷ 2 ∷ 3 ∷ []) ++ drop 3 (replicate 64 0))
read_password_reassembles_example =
    read_password_reassembles ((1 ∷ 2 ∷ []) ∷ (3 ∷ []) ∷ [])
      ((omega arith, omega arith), ((omega arith, omega arith), tt)) (omega arith)

abbrev silent_pass : ℕ → Pass
silent_pass t = record { ack = false; t1 = t + 600000; sends = true; t0 = t + 600000 }

abbrev silent_peer : Peer
silent_peer = record {
  memory = 0 ∷ [];
  sends = true;
  t0 = 0;
  passes =
      silent_pass 0
      ∷ silent_pass 600000
      ∷ silent_pass 1200000
      ∷ silent_pass 1800000
      ∷ silent_pass 2400000
      ∷ silent_pass 3000000
      ∷ silent_pass 3600000
      ∷ silent_pass 4200000
      ∷ silent_pass 4800000
      ∷ silent_pass 5400000
      ∷ silent_pass 6000000
      ∷ [];
}

abbrev pub bob : Registration
bob = record {
  name_len = 1;
  t0 = 0;
  name_reads = record { read = got (97 ∷ []); t1 = 10 } ∷ [];
  connection = connection;
  pass_len = 1;
  pass_reads = got (112 ∷ []) ∷ [];
  execute = λ n h. true;
  hash_sha_256 = hash;
}

abbrev client : ℕ → Client
client code = record {
  arrival = record { recv = some code; send_ack = true };
  request = ann;
  registration = bob;
}

abbrev server : Server
server = record { next_registration_port = 13000; next_login_port = 14000; open_conns = [] }

abbrev surroundings : Surroundings
surroundings = record {
  library_init = true;
  is_seeded = 1;
  connects = true;
  chat_addresses = none;
  match_addresses = none;
  chat_sock = none;
  match_sock = none;
}

abbrev listening : Option ℕ → Bool
listening none = false
listening (some fd) = true

launch_serves_example :
    let address : Address = record { fd = some 3; reusable = true; takes = true } in
    launch surroundings
      (some (address ∷ []))
      listening
      true
      none
      (accepted 5 (client 0) ∷ refused ∷ accepted 6 (client 1) ∷ [])
    ≡ some (
      record fresh_server { open_conns = 6 ∷ 5 ∷ [] },
      serve fresh_server (client 0) ∷ serve fresh_server (client 1) ∷ [],
    )
launch_serves_example =
    let address : Address = record { fd = some 3; reusable = true; takes = true } in
    launch_serves surroundings (address ∷ []) listening true none
      (accepted 5 (client 0) ∷ refused ∷ accepted 6 (client 1) ∷ []) refl
