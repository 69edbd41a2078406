-- ===== src/LoginServer/Writers.antt =====
-- The handlers of the login server add to the log only, and do not read it (LoginServer.cxx).
use inferno_game_server.Base.{
  ℕ, Bool, true, false, List, [], ◌∷◌, Option, none, some, if◌then◌else◌,
}
use inferno_game_server.Base.Handlers.{
  IsWriter, writers, >>=-IsWriter, stop-IsWriter, pure-IsWriter,
}
use inferno_game_server.LoginServer.Handler.{Handler, blocked}
use inferno_game_server.LoginServer.Reads.{count, deliver}
use inferno_game_server.Base.Int.{ℤ, ltb_ℤ, ◌+ℤ◌}
use inferno_game_server.LoginServer.Secure.{Connection, accept_secure}
use inferno_game_server.LoginServer.Login.{
  Request, lookup_user, check_password, authenticated, authenticate, login_user, random_string,
}
use inferno_game_server.LoginServer.Signup.{
  Registration, Timed, is_late, complain, receive_name, recv_password, insert_row, signup_user,
}

accept_secure-IsWriter : (c : Connection) (port : ℕ) → IsWriter (accept_secure c port)
unfolding accept_secure
accept_secure-IsWriter c port = search (writers) depth 40

lookup_user-IsWriter : (throws : Bool) (row : Option (List ℕ)) → IsWriter (lookup_user throws row)
unfolding lookup_user
lookup_user-IsWriter true row = search (writers)
lookup_user-IsWriter false none = search (writers)
lookup_user-IsWriter false (some hash) = search (writers)

check_password-IsWriter : (b : Bool) → IsWriter (check_password b)
unfolding check_password
check_password-IsWriter true = search (writers)
check_password-IsWriter false = search (writers)

random_string-IsWriter : (s : Option (List ℕ)) → IsWriter (random_string s)
random_string-IsWriter none = search (writers)
random_string-IsWriter (some s) = search (writers)

authenticated-IsWriter : (r : Request) → IsWriter (authenticated r)
unfolding authenticated
authenticated-IsWriter r = search (writers, random_string-IsWriter) depth 40

authenticate-IsWriter : (r : Request) (hash : List ℕ) → IsWriter (authenticate r hash)
unfolding authenticate
authenticate-IsWriter r hash =
    search (writers, check_password-IsWriter, authenticated-IsWriter) depth 40

pub login_user-IsWriter : (r : Request) (port : ℕ) → IsWriter (login_user r port)
unfolding login_user
login_user-IsWriter r port =
    search (writers, accept_secure-IsWriter, lookup_user-IsWriter, authenticate-IsWriter) depth 40

complain-IsWriter : (b : Bool) → IsWriter (complain b)
complain-IsWriter true = search (writers)
complain-IsWriter false = search (writers)

if-IsWriter :
    {A : Type 0} (b : Bool) (m k : Handler A)
    → IsWriter m
    → IsWriter k
    → IsWriter (if b then m else k)
if-IsWriter true m k h g = h
if-IsWriter false m k h g = g

receive_name-IsWriter :
    (namelen total : ℤ) (t0 : ℕ) (s : List ℕ) (rs : List Timed)
    → IsWriter (receive_name namelen total t0 s rs)
unfolding receive_name
receive_name-IsWriter namelen total t0 s [] =
    if-IsWriter (ltb_ℤ total namelen) _ _ (stop-IsWriter blocked) (pure-IsWriter s)
receive_name-IsWriter namelen total t0 s (r ∷ rs) =
    let rest =
      receive_name-IsWriter namelen (total +ℤ count 16 r.read) t0 (deliver 16 r.read s) rs in
    if-IsWriter (ltb_ℤ total namelen) _ _
      (>>=-IsWriter _ _ (complain-IsWriter (is_late t0 r)) (λ _. rest)) (pure-IsWriter s)

recv_password-IsWriter : (r : Registration) (port : ℕ) → IsWriter (recv_password r port)
unfolding recv_password
recv_password-IsWriter r port = search (writers, accept_secure-IsWriter) depth 40

insert_row-IsWriter : (uname hash : List ℕ) (b : Bool) → IsWriter (insert_row uname hash b)
insert_row-IsWriter uname hash true = search (writers)
insert_row-IsWriter uname hash false = search (writers)

pub signup_user-IsWriter : (r : Registration) (port : ℕ) → IsWriter (signup_user r port)
unfolding signup_user
signup_user-IsWriter r port =
    search (writers, receive_name-IsWriter, recv_password-IsWriter, insert_row-IsWriter) depth 40
