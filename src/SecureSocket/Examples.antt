-- ===== src/SecureSocket/Examples.antt =====
-- The theorems about sockets for TLS, where every call succeeds.
use inferno_game_server.Base.{◌≡◌, refl, true, [], ◌∷◌, none, some}
use inferno_game_server.Sockets.{init_as_server, socket}
use inferno_game_server.LoginServer.Secure
use inferno_game_server.LoginServer.Secure.{accept_secure}
use inferno_game_server.LoginClient
use inferno_game_server.LoginClient.{connect_ssl}
use inferno_game_server.SecureSocket
use inferno_game_server.SecureSocket.{
  acceptor, handle, Tls, Place, initialize_server, initialize, secure_socket, destroyed,
}
use inferno_game_server.SecureSocket.Agreement.{
  as_connection, as_tls, goes_on, initialize-accept_secure,
}

abbrev tls : Tls
tls = record {
  library_init = true;
  ctx_new = true;
  dh_new = true;
  generate_parameters = true;
  dh_check = true;
  generate_key = true;
  set_cipher_list = true;
  bio_new_accept = true;
  bio_do_accept = true;
  bio_do_accept_again = true;
  ssl_accept = true;
  bio_new_connect = true;
  bio_do_connect = true;
  ssl_new = true;
  ssl_connect = true;
}

abbrev place : Place
place = record { unconstructed = some (55 ∷ []); remote_host = 104 ∷ []; port = some (56 ∷ []) }

tls-constructs : (secure_socket init_as_server tls 8001 place (8000 ∷ [])).throws ≡ none
unfolding secure_socket socket initialize SecureSocket.ssl_initialize SecureSocket.fetch_ssl_context
    SecureSocket.fetch_diffie_hellman_handle initialize_server SecureSocket.initialize_as
tls-constructs = refl

initialize-accept_secure_example :
    (initialize init_as_server tls place []).0
    ≡ goes_on (accept_secure (as_connection tls) 14000 []).0
initialize-accept_secure_example = initialize-accept_secure tls place (55 ∷ []) 14000 refl refl

abbrev session : LoginClient.Session
session = record {
  tls = as_tls tls;
  send_code = true;
  recv_ack = some 1;
  recv_port = some 14000;
  send_length = true;
  send_name = true;
  stack = 0;
  recv_lookup = none;
  recv_check = none;
  token_reads = [];
}

handle-made : Secure.fetch_diffie_hellman_handle (as_connection tls).library ≡ true
unfolding Secure.fetch_diffie_hellman_handle
handle-made = refl
