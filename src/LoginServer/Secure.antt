-- ===== src/LoginServer/Secure.antt =====
-- The SSL set-up (LoginServer.cxx): the context, the random string, and the accept that `login_user` and
-- `recv_password` share word for word. A field is whether the call of that name succeeds.
use inferno_game_server.Base.{
  ℕ, ◌%◌, Bool, true, false, ◌&&◌, List, Option, none, ltb, if◌then◌else◌,
}
use inferno_game_server.LoginServer.Handler.{
  Handler, locked, unlocked, assigned, sent_short, ◌>>◌, act, pure, require,
}
use inferno_game_server.LoginServer.Ports.{next_port}

pub record SslLibrary : Type 0 where
  pub ctx_new : Bool
  pub dh_new : Bool
  pub generate_parameters : Bool
  pub dh_check : Bool
  pub generate_key : Bool
  pub set_cipher_list : Bool

-- Whether a pointer is returned, and not NULL.
unfoldable pub fetch_diffie_hellman_handle : SslLibrary → Bool
fetch_diffie_hellman_handle l =
    if l.dh_new
    then if l.generate_parameters
      then if l.dh_check then if l.generate_key then true else false else false
      else false
    else false

unfoldable pub fetch_ssl_context : SslLibrary → Bool
unfolding fetch_diffie_hellman_handle
fetch_ssl_context l =
    if l.ctx_new
    then if fetch_diffie_hellman_handle l then if l.set_cipher_list then true else false else false
    else false

-- RAND_bytes of the buffer, if it succeeds.
unfoldable pub rng_get_aes_str : ℕ → Option (List ℕ) → Option (List ℕ)
rng_get_aes_str buflen random = if ltb buflen 256 then none else random

pub record Connection : Type 0 where
  pub library : SslLibrary
  pub send_port : Bool
  pub bio_new_accept : Bool
  pub bio_do_accept : Bool
  pub bio_do_accept_again : Bool
  pub ssl_new : Bool
  pub ssl_accept : Bool

-- From the context to the accepted connection. The context is not tested; `SSL_new` of a NULL context
-- returns NULL. The result is the port that comes next.
unfoldable pub accept_secure : Connection → ℕ → Handler ℕ
unfolding fetch_ssl_context next_port
accept_secure c port = do
  let ctx = fetch_ssl_context c.library
  act locked
  let next = next_port port
  act (assigned next)
  act unlocked
  act (sent_short (port % 65536))
  require c.send_port
  require c.bio_new_accept
  require c.bio_do_accept
  require c.bio_do_accept_again
  require (ctx && c.ssl_new)
  require c.ssl_accept
  pure next
