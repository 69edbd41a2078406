-- ===== src/LoginClient.antt =====
-- GameServer/LoginServer/client/client.cxx: the client of the login server. What the user types, what the
-- server sends and what the calls return are arguments; what the client does is a list of actions. A text
-- that is typed has no NUL, so `strlen` of it is its length.
use inferno_game_server.Base.{
  ℕ, ◌%◌, Bool, true, false, ◌&&◌, List, [], ◌∷◌, ◌++◌, Option, none, some, Result, ok, err, ltb,
  ◌==◌, length, replicate, if◌then◌else◌,
}
use inferno_game_server.Base.Int.{ℤ, pos, negsuc}
use inferno_game_server.Base.Bytes.{c_string, overlay}
use inferno_game_server.Base.Handlers
use inferno_game_server.Base.Handlers.{
  Fault, overflow, Outcome, ◌>>=◌, ◌>>◌, act, pure, return, stop, require, from, terminated,
}
use inferno_game_server.LoginServer.Reads.{Read, read_password}
pub mod Text
pub mod Wire
pub mod Dialogue
pub mod Exchange
pub mod Arrivals
pub mod Enrolment
pub mod EndToEnd
pub mod Returning
mod Examples

pub data Action : Type 0 where
  -- a short over the plain connection, and over SSL
  sent_short wrote_short : ℕ → Action
  -- bytes over the plain connection, and over SSL
  sent_bytes wrote_bytes : List ℕ → Action
  -- BIO_new_connect to a port
  connects : ℕ → Action
  -- the array that is printed as the token
  shows : List ℕ → Action
  -- SSL_shutdown, SSL_free and SSL_CTX_free
  cleaned_up : Action

abbrev pub Handler : Type 0 → Type 0
Handler A = Handlers.Handler Action A

-- Whether the calls of these names succeed.
pub record Tls : Type 0 where
  pub library_init : Bool
  pub ctx_new : Bool
  pub set_cipher_list : Bool
  pub bio_new_connect : Bool
  pub bio_do_connect : Bool
  pub ssl_new : Bool
  pub ssl_connect : Bool

-- What the client meets. A `recv` gives a short after `ntohs`, or nothing; `stack` is what ACK
-- holds before.
pub record Session : Type 0 where
  pub tls : Tls
  pub send_code : Bool
  pub recv_ack : Option ℕ
  pub recv_port : Option ℕ
  pub send_length : Bool
  pub send_name : Bool
  pub stack : ℕ
  pub recv_lookup : Option ℕ
  pub recv_check : Option ℕ
  pub token_reads : List Read

unfoldable pub ssl_initialize : Tls → Bool
ssl_initialize t = if t.library_init then true else false

-- Whether a pointer is returned, and not NULL.
unfoldable pub fetch_ssl_context : Tls → Bool
fetch_ssl_context t = if t.ctx_new then if t.set_cipher_list then true else false else false

abbrev pub arrived : Option ℕ → Handler ℕ
arrived none = return false
arrived (some n) = pure n

-- From the first `recv` to the established SSL connection: of two shorts the second is the port.
unfoldable pub connect_ssl : Session → Handler (Unit {0})
unfolding ssl_initialize fetch_ssl_context
connect_ssl s = do
  ack ← arrived s.recv_ack
  ssl_port ← arrived s.recv_port
  require (ssl_initialize s.tls)
  let ctx = fetch_ssl_context s.tls
  act (connects ssl_port)
  require s.tls.bio_new_connect
  require s.tls.bio_do_connect
  require (ctx && s.tls.ssl_new)
  require s.tls.ssl_connect

-- sprintf(uname, "%s", username.c_str()) into a cleared array of 16.
unfoldable pub print_name : List ℕ → Handler (List ℕ)
unfolding overlay
print_name username =
    if ltb (length username) 16 then pure (overlay username (replicate 16 0)) else stop overflow

-- The value of ACK after a `recv` whose result is not tested.
abbrev pub ack_after : Option ℕ → ℕ → ℕ
ack_after none old = old
ack_after (some n) old = n

-- std::cout << buffer
unfoldable pub show_token : List ℕ → Handler (Unit {0})
unfolding c_string
show_token buffer = do act (shows buffer); shown ← terminated (c_string buffer); pure tt

-- `login` from the answer to the name on.
unfoldable pub prove_password : List ℕ → Session → Handler (Unit {0})
unfolding show_token
prove_password password s = do
  let ack = ack_after s.recv_lookup s.stack
  require (ack == 0)
  act (wrote_short (length password % 65536))
  act (wrote_bytes password)
  let ack' = ack_after s.recv_check ack
  require (ack' == 0)
  buffer ← from (read_password (pos 64) (pos 0) (replicate 64 0) s.token_reads)
  show_token buffer
  act cleaned_up
  return true

unfoldable pub login : List ℕ → List ℕ → Session → Handler (Unit {0})
unfolding connect_ssl
login username password s = do
  act (sent_short 0)
  require s.send_code
  connect_ssl s
  act (wrote_short (length username % 65536))
  require s.send_length
  uname ← print_name username
  act (wrote_bytes uname)
  require s.send_name
  prove_password password s

unfoldable pub signup : List ℕ → List ℕ → Session → Handler (Unit {0})
unfolding connect_ssl
signup username password s = do
  act (sent_short 1)
  require s.send_code
  act (sent_short (length username % 65536))
  require s.send_length
  uname ← print_name username
  act (sent_bytes uname)
  require s.send_name
  connect_ssl s
  act (wrote_short (length password % 65536))
  act (wrote_bytes password)
  require (ack_after s.recv_check s.stack == 0)
  act cleaned_up
  return true

unfoldable pub change_password : Handler (Unit {0})
change_password = return true

-- One turn of the loop of `main`: the code is what `atoi` makes of the user's line.
pub data Service : Type 0 where
  logs_in signs_up changes_password invalid : Service

unfoldable pub service : ℤ → Service
service (negsuc n) = invalid
service (pos n) =
    if n == 0
    then logs_in
    else if n == 1
    then signs_up
    else if n == 2
    then changes_password
    else invalid
