-- ===== src/LoginServer/Signup.antt =====
-- `signup_user` and `recv_password` (LoginServer.cxx).
use inferno_game_server.Base.{
  ℕ, ◌+◌, Bool, true, false, List, [], ◌∷◌, replicate, ltb, if◌then◌else◌,
}
use inferno_game_server.Base.Int.{ℤ, pos, ◌+ℤ◌, ltb_ℤ}
use inferno_game_server.Base.Bytes.{c_string}
use inferno_game_server.LoginServer.Handler.{
  Handler, blocked, sent_short, inserted, cleaned_up, ◌>>=◌, ◌>>◌, act, pure, return, stop, from,
  terminated,
}
use inferno_game_server.LoginServer.Secure.{Connection, accept_secure}
use inferno_game_server.LoginServer.Reads.{Read, signed16, count, deliver, read_password}

-- A read, and the time in microseconds after it.
pub record Timed : Type 0 where
  pub read : Read
  pub t1 : ℕ

abbrev pub timeout : ℕ
timeout = 5000000

-- elapsed > TIMEOUT
abbrev pub is_late : ℕ → Timed → Bool
is_late t0 r = ltb (t0 + timeout) r.t1

-- htons(-1) is sent for each late read, and the loop goes on.
abbrev pub complain : Bool → Handler (Unit {0})
complain true = act (sent_short 65535)
complain false = pure tt

-- The loop that receives the user name.
unfoldable pub receive_name : ℤ → ℤ → ℕ → List ℕ → List Timed → Handler (List ℕ)
unfolding ◌+ℤ◌
receive_name namelen total t0 s [] = if ltb_ℤ total namelen then stop blocked else pure s
receive_name namelen total t0 s (r ∷ rs) =
    let rest = receive_name namelen (total +ℤ count 16 r.read) t0 (deliver 16 r.read s) rs in
    if ltb_ℤ total namelen then (do complain (is_late t0 r); rest) else pure s

pub record Registration : Type 0 where
  pub name_len : ℕ
  pub t0 : ℕ
  pub name_reads : List Timed
  pub connection : Connection
  pub pass_len : ℕ
  pub pass_reads : List Read
  -- whether the INSERT is executed, and no SQLException thrown
  pub execute : List ℕ → List ℕ → Bool
  pub hash_sha_256 : List ℕ → List ℕ

unfoldable pub recv_password : Registration → ℕ → Handler (List ℕ)
recv_password r next_registration_port = do
  next ← accept_secure r.connection next_registration_port
  buffer ← from (read_password (signed16 r.pass_len) (pos 0) (replicate 64 0) r.pass_reads)
  shown ← terminated (c_string buffer)
  act cleaned_up
  pure buffer

abbrev pub insert_row : List ℕ → List ℕ → Bool → Handler ℕ
insert_row uname hash true = do act (inserted uname hash); pure 0
insert_row uname hash false = pure 1

unfoldable pub signup_user : Registration → ℕ → Handler (Unit {0})
signup_user r next_registration_port = do
  uname_buffer ← receive_name (signed16 r.name_len) (pos 0) r.t0 (replicate 16 0) r.name_reads
  uname ← terminated (c_string uname_buffer)
  buffer ← recv_password r next_registration_port
  password ← terminated (c_string buffer)
  let hash = r.hash_sha_256 password
  db_result_code ← insert_row uname hash (r.execute uname hash)
  act (sent_short db_result_code)
  return true
