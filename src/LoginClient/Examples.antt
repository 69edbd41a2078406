-- ===== src/LoginClient/Examples.antt =====
-- The theorems about the client of the login server, on the name "a" and the password "p".
use inferno_game_server.Base.{
  ℕ, zero, suc, ◌%◌, ◌≡◌, refl, ap, sym, true, false, List, [], ◌∷◌, Option, none, some, arith,
  replicate, if◌then◌else◌,
}
use inferno_game_server.Base.Bytes.{c_string, same}
use inferno_game_server.LoginServer.Secure.{
  SslLibrary, Connection, fetch_ssl_context, fetch_diffie_hellman_handle,
}
use inferno_game_server.LoginServer.Login.{query}
use inferno_game_server.LoginServer.Access.{IsOpen, answer}
use inferno_game_server.LoginServer.Requests.{Client, Server, exits, serve}
use inferno_game_server.LoginClient.{Tls, Session, login, signup}
use inferno_game_server.LoginClient.Text.{IsText}
use inferno_game_server.LoginClient.Wire.{hears, says, IsReady}
use inferno_game_server.LoginClient.Dialogue.{dialogue, server_log}
use inferno_game_server.LoginClient.Exchange.{login_exchange}
use inferno_game_server.LoginClient.EndToEnd.{admitted}
use inferno_game_server.LoginServer.Accounts.{stored}
use inferno_game_server.Base.Handlers.{returned}
use inferno_game_server.LoginClient.Enrolment.{
  enrolment, hears_signup, says_signup, signup_log, signup_exchange,
}
use inferno_game_server.LoginServer.Requests.{Accept, refused, rounds, round, get_request_type}
use inferno_game_server.LoginServer.Secure.{accept_secure}
use inferno_game_server.LoginServer.Ports.{next_port}
use inferno_game_server.LoginServer.Signup.{receive_name, signup_user, recv_password}
use inferno_game_server.LoginServer.Reads.{read_password, write_at}
use inferno_game_server.Base.Bytes.{overlay}
use inferno_game_server.LoginServer.Database.{attach, in_turn, used, committed}
use inferno_game_server.LoginServer.Directory.{AllSpare, inserts}
use inferno_game_server.LoginServer.TableExamples.{table, table-IsTable, ann-IsPlain, no_rows}
use inferno_game_server.LoginClient.Returning.{
  enrolling, connections, database, returning_client_gets_token,
}

abbrev library : SslLibrary
library = record {
  ctx_new = true;
  dh_new = true;
  generate_parameters = true;
  dh_check = true;
  generate_key = true;
  set_cipher_list = true;
}

abbrev connection : Connection
connection = record {
  library = library;
  send_port = true;
  bio_new_accept = true;
  bio_do_accept = true;
  bio_do_accept_again = true;
  ssl_new = true;
  ssl_accept = true;
}

connection-IsOpen : IsOpen connection
unfolding fetch_ssl_context fetch_diffie_hellman_handle
connection-IsOpen = record {
  context = refl;
  send_port = refl;
  bio_new_accept = refl;
  bio_do_accept = refl;
  bio_do_accept_again = refl;
  ssl_new = refl;
  ssl_accept = refl;
}

abbrev tls : Tls
tls = record {
  library_init = true;
  ctx_new = true;
  set_cipher_list = true;
  bio_new_connect = true;
  bio_do_connect = true;
  ssl_new = true;
  ssl_connect = true;
}

abbrev session : Session
session = record {
  tls = tls;
  send_code = true;
  recv_ack = none;
  recv_port = none;
  send_length = true;
  send_name = true;
  stack = 3;
  recv_lookup = none;
  recv_check = none;
  token_reads = [];
}

session-IsReady : IsReady session
session-IsReady = record {
  library_init = refl;
  ctx_new = refl;
  set_cipher_list = refl;
  bio_new_connect = refl;
  bio_do_connect = refl;
  ssl_new = refl;
  ssl_connect = refl;
  send_code = refl;
  send_length = refl;
  send_name = refl;
}

-- A hash of 64 characters, as a hexadecimal hash has.
abbrev hash : List ℕ → List ℕ
hash s = replicate 64 55

IsText-replicate : (n : ℕ) → IsText (replicate n 55)
IsText-replicate zero = tt
IsText-replicate (suc n) = (omega arith, IsText-replicate n)

abbrev rows : List ℕ → Option (List ℕ)
rows q = if same q (query (97 ∷ [])) then some (replicate 64 55) else none

abbrev random_bytes : List ℕ
random_bytes = 9 ∷ 0 ∷ 4 ∷ []

random-ends : c_string random_bytes ≡ some (9 ∷ [])
unfolding c_string
random-ends = refl

abbrev client : Client
client = record {
  arrival = record { recv = none; send_ack = true };
  request = record {
    connection = connection;
    name_len = 0;
    name_reads = [];
    query_throws = λ q. false;
    execute_query = rows;
    pass_len = 0;
    pass_reads = [];
    random = some random_bytes;
    hash_sha_256 = hash;
  };
  registration = record {
    name_len = 0;
    t0 = 0;
    name_reads = [];
    connection = connection;
    pass_len = 0;
    pass_reads = [];
    execute = λ u h. true;
    hash_sha_256 = hash;
  };
}

abbrev server : Server
server = record { next_registration_port = 13000; next_login_port = 14000; open_conns = [] }

login_exchange_example :
    let sent =
      server_log 14000 (answer (hash (112 ∷ [])) (hash (9 ∷ [])) (rows (query (97 ∷ [])))).1 in
    let said =
      dialogue
        (97 ∷ [])
        (112 ∷ [])
        (14000 % 65536)
        (hash (112 ∷ []))
        (hash (9 ∷ []))
        (rows (query (97 ∷ []))) in
    (serve server (says said.1 client) ≡ (exits, sent))
    × (login (97 ∷ []) (112 ∷ []) (hears sent session) [] ≡ said)
login_exchange_example =
    login_exchange server client session (97 ∷ []) (112 ∷ []) random_bytes (9 ∷ [])
      connection-IsOpen refl session-IsReady (omega arith, tt) (omega arith) (omega arith, tt)
      (omega arith) (omega arith) refl refl random-ends refl (IsText-replicate 64)

signup_exchange_example :
    let sent = signup_log 13000 (97 ∷ []) (hash (112 ∷ [])) true in
    let said = enrolment (97 ∷ []) (112 ∷ []) (13000 % 65536) true in
    (serve server (says_signup 20 said.1 client) ≡ (exits, sent))
    × (signup (97 ∷ []) (112 ∷ []) (hears_signup sent session) [] ≡ said)
signup_exchange_example =
    signup_exchange server client session (97 ∷ []) (112 ∷ []) 20 connection-IsOpen refl
      session-IsReady (omega arith, tt) (omega arith) (omega arith, tt) (omega arith) (omega arith)
      (omega arith)

-- The server's side of `signup_exchange_example`.
signed_up :
    serve server (says_signup 20 (enrolment (97 ∷ []) (112 ∷ []) (13000 % 65536) true).1 client)
    ≡ (exits, signup_log 13000 (97 ∷ []) (hash (112 ∷ [])) true)
signed_up =
    (signup_exchange server client session (97 ∷ []) (112 ∷ []) 20 connection-IsOpen refl
      session-IsReady (omega arith, tt) (omega arith) (omega arith, tt) (omega arith) (omega arith)
      (omega arith)).0

rows_agree :
    let served =
      serve server
        (says_signup 20 (enrolment (97 ∷ []) (112 ∷ []) (13000 % 65536) true).1 client) in
    rows (query (97 ∷ [])) ≡ stored (97 ∷ []) served.1
unfolding query same
rows_agree = sym (ap (λ q. stored (97 ∷ []) q.1) signed_up)

-- A sign-up, and a refused connection before the login.
abbrev between : List Accept
between = refused ∷ []

enrolled_rows :
    inserts
      (rounds server (
        in_turn table server
          (connections table server (97 ∷ []) (112 ∷ []) 5 between [] 20 client)
          [])).1
    ≡ record { username = 97 ∷ []; password_hash = hash (112 ∷ []) } ∷ []
unfolding rounds round in_turn used committed serve get_request_type signup_user accept_secure
    receive_name recv_password read_password fetch_ssl_context fetch_diffie_hellman_handle write_at
    c_string overlay next_port
enrolled_rows = refl

enrolled_spare :
    AllSpare
      (rounds server (
        in_turn table server
          (connections table server (97 ∷ []) (112 ∷ []) 5 between [] 20 client)
          [])).1
unfolding rounds round in_turn used committed serve get_request_type signup_user accept_secure
    receive_name recv_password read_password fetch_ssl_context fetch_diffie_hellman_handle write_at
    c_string overlay next_port
enrolled_spare = (tt, tt)

returning_client_gets_token_example :
    let served =
      serve server (attach table [] (enrolling table server (97 ∷ []) (112 ∷ []) 20 client)) in
    let said = admitted (97 ∷ []) (112 ∷ []) (14000 % 65536) (hash (9 ∷ [])) in
    ((signup (97 ∷ []) (112 ∷ []) (hears_signup served.1 session) []).0 ≡ returned true)
    × (login
          (97 ∷ [])
          (112 ∷ [])
          (hears
            (serve server (
              attach table
                (database table server (97 ∷ []) (112 ∷ []) 5 between [] 20 client)
                (says said.1 client))).1
            session)
          []
        ≡ said)
returning_client_gets_token_example =
    returning_client_gets_token table server (97 ∷ []) (112 ∷ []) 5 between [] 20 client client
      session session (9 ∷ []) table-IsTable ann-IsPlain refl no_rows
      (record {
        name_text = (omega arith, tt);
        name_fits = omega arith;
        password_text = (omega arith, tt);
        password_starts = omega arith;
        password_fits = omega arith;
      })
      (record {
        opens = connection-IsOpen;
        acks = refl;
        ready = session-IsReady;
        in_time = omega arith;
      })
      refl enrolled_spare (rw enrolled_rows (ann-IsPlain, tt))
      (record {
        opens = connection-IsOpen;
        acks = refl;
        ready = session-IsReady;
        bytes = random_bytes;
        drawn = refl;
        ends = random-ends;
        token_length = refl;
        token_text = IsText-replicate 64;
      })
      refl
