-- ===== src/LoginServer/Handler.antt =====
-- What the login server does to the outside (GameServer/LoginServer/server/LoginServer.cxx).
use inferno_game_server.Base.{ℕ, List}
use inferno_game_server.Base.Handlers
pub use inferno_game_server.Base.Handlers.{
  Fault, blocked, overflow, unterminated, sql_exception, Outcome, done, returned, fault, continue,
  ◌>>=◌, ◌>>◌, pure, act, return, stop, require, from, terminated,
}

pub data Action : Type 0 where
  -- lock and unlock of a port mutex
  locked unlocked : Action
  -- the value that the next port is set to
  assigned : ℕ → Action
  -- a short that is sent to the client in the clear
  sent_short : ℕ → Action
  -- a string that is written to the client over SSL
  wrote : List ℕ → Action
  -- an executed INSERT of a user name and a password hash
  inserted : List ℕ → List ℕ → Action
  -- SSL_shutdown, SSL_free, SSL_CTX_free and BIO_free
  cleaned_up : Action

abbrev pub Handler : Type 0 → Type 0
Handler A = Handlers.Handler Action A
