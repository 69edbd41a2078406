-- ===== src/LoginServer/Login.antt =====
-- `login_user` (LoginServer.cxx).
use inferno_game_server.Base.{
  ℕ, Bool, true, false, List, [], ◌∷◌, ◌++◌, Option, none, some, replicate,
}
use inferno_game_server.Base.Int.{pos}
use inferno_game_server.Base.Bytes.{same, c_string, codes}
use inferno_game_server.LoginServer.Handler.{
  Handler, sent_short, wrote, cleaned_up, ◌>>=◌, ◌>>◌, act, pure, return, from, terminated, stop,
  sql_exception,
}
use inferno_game_server.LoginServer.Secure.{Connection, accept_secure, rng_get_aes_str}
use inferno_game_server.LoginServer.Reads.{Read, signed16, read_name, read_password}

-- What the client, the database, the random numbers and the hash do during one call.
pub record Request : Type 0 where
  pub connection : Connection
  pub name_len : ℕ
  pub name_reads : List Read
  -- whether executeQuery throws an SQLException, which nothing catches; and else the field
  -- password_hash of the first row, if there is one
  pub query_throws : List ℕ → Bool
  pub execute_query : List ℕ → Option (List ℕ)
  pub pass_len : ℕ
  pub pass_reads : List Read
  pub random : Option (List ℕ)
  pub hash_sha_256 : List ℕ → List ℕ

unfoldable pub query : List ℕ → List ℕ
query uname =
    codes "SELECT username, password_hash FROM credentials WHERE username='" ++ uname ++ b'\'' ∷ []

-- The lookup: the client is told 1 if there is no such user, and 0 otherwise; and nothing if the
-- query throws.
unfoldable pub lookup_user : Bool → Option (List ℕ) → Handler (List ℕ)
lookup_user true row = stop sql_exception
lookup_user false none = do act (sent_short 1); return false
lookup_user false (some stored_hash) = do act (sent_short 0); pure stored_hash

-- client_hash.compare(stored_hash)
unfoldable pub check_password : Bool → Handler (Unit {0})
check_password false = do act (sent_short 1); return false
check_password true = act (sent_short 0)

abbrev pub random_string : Option (List ℕ) → Handler (List ℕ)
random_string none = return false
random_string (some s) = terminated (c_string s)

-- Upon success, the token.
unfoldable pub authenticated : Request → Handler (Unit {0})
authenticated r = do
  randstr ← random_string (rng_get_aes_str 256 r.random)
  act (wrote (r.hash_sha_256 randstr))
  act cleaned_up
  return true

-- From the password on, for a user with the stored hash.
unfoldable pub authenticate : Request → List ℕ → Handler (Unit {0})
authenticate r stored_hash = do
  buffer ← from (read_password (signed16 r.pass_len) (pos 0) (replicate 64 0) r.pass_reads)
  password ← terminated (c_string buffer)
  check_password (same (r.hash_sha_256 password) stored_hash)
  authenticated r

unfoldable pub login_user : Request → ℕ → Handler (Unit {0})
login_user r next_login_port = do
  next ← accept_secure r.connection next_login_port
  uname_buffer ← from (read_name (signed16 r.name_len) (pos 0) (replicate 16 0) r.name_reads)
  uname ← terminated (c_string uname_buffer)
  stored_hash ← lookup_user (r.query_throws (query uname)) (r.execute_query (query uname))
  authenticate r stored_hash
