-- ===== src/LoginServer/Accounts.antt =====
-- Signing up, and logging in with what was signed up (LoginServer.cxx).
use inferno_game_server.Base.{
  ℕ, suc, ◌+◌, ◌<◌, ◌≡◌, refl, Bool, true, false, List, [], ◌∷◌, ◌++◌, Option, none, some, arith,
  replicate, length, lt→ltb, ap, ◌∙◌, inl, inr, Bool-cases, if◌then◌else◌,
}
use mathlib.Core.List.{append_assoc, append-nil}
use inferno_game_server.Base.Int.{pos}
use inferno_game_server.Base.Bytes.{overlay, same, same_refl, c_string}
use inferno_game_server.LoginServer.Handler.{
  Action, locked, unlocked, assigned, blocked, done, returned, fault, sent_short, inserted, wrote,
  cleaned_up,
}
use inferno_game_server.LoginServer.Reads.{got, signed16, read_password}
use inferno_game_server.LoginServer.Login.{Request, query, login_user}
use inferno_game_server.LoginServer.Access.{
  IsOpen, received, received_name, received_password, received-eq-some, opening, accept_secure_open,
  login_user_branches,
}
use inferno_game_server.LoginServer.Signup.{
  Timed, timeout, receive_name, Registration, recv_password, signup_user,
}

-- Only reads that bring nothing, all of them after the timeout.
abbrev pub IsHopeless : ℕ → List Timed → Type 0
IsHopeless t0 [] = Unit
IsHopeless t0 (r ∷ rs) = (r.read ≡ got []) × (t0 + timeout < r.t1) × IsHopeless t0 rs

abbrev pub complaints : ℕ → List Action
complaints n = replicate n (sent_short 65535)

-- A sign-up whose name does not come is not given up at the timeout: if a name of some length is awaited
-- and every read brings nothing and is past the timeout, the client is told -1 once for each read, and the
-- loop waits on.
pub receive_name_complains :
    (n t0 : ℕ) (s : List ℕ) (rs : List Timed) (log : List Action)
    → IsHopeless t0 rs
    → receive_name (pos (suc n)) (pos 0) t0 s rs log
      ≡ (fault blocked, log ++ complaints (length rs))
unfolding receive_name overlay
receive_name_complains n t0 s [] log h = ground (arith, append-nil log)
receive_name_complains n t0 s (r ∷ rs) log h =
    rw (h.0, lt→ltb 0 (suc n + 0) (omega arith), lt→ltb (t0 + timeout) r.t1 h.1)
      (receive_name_complains n t0 s rs (log ++ sent_short 65535 ∷ []) h.2
        ∙ ap (λ l. (fault blocked, l)) (append_assoc log (sent_short 65535 ∷ []) _))

-- The name that a sign-up receives in time, and its password.
pub record IsReceived (r : Registration) (uname password : List ℕ) : Type 0 where
  pub name_buffer : List ℕ
  pub name_came :
      receive_name (signed16 r.name_len) (pos 0) r.t0 (replicate 16 0) r.name_reads []
      ≡ (done name_buffer, [])
  pub name_ends : c_string name_buffer ≡ some uname
  pub password_came :
      received (read_password (signed16 r.pass_len) (pos 0) (replicate 64 0) r.pass_reads)
      ≡ some password

-- The end of a sign-up: whether the row is in, and what the client is told.
abbrev pub enrolled : List ℕ → List ℕ → Bool → List Action
enrolled uname hash true = inserted uname hash ∷ sent_short 0 ∷ []
enrolled uname hash false = sent_short 1 ∷ []

recv_password-received :
    (r : Registration) (port : ℕ) (password : List ℕ)
    → IsOpen r.connection
    → received (read_password (signed16 r.pass_len) (pos 0) (replicate 64 0) r.pass_reads)
      ≡ some password
    → (buffer : List ℕ) × (recv_password r port [] ≡ (done buffer, opening port ++ cleaned_up ∷ []))
      × (c_string buffer ≡ some password)
unfolding recv_password
recv_password-received r port password o h =
    let (b, e, s) = received-eq-some _ h in
    (b, rw (accept_secure_open r.connection port o) (rw e (rw s refl)), s)

-- A sign-up whose name and password come in time, on an open connection, tells the client 0 exactly if
-- the row of the name and the password's hash was inserted, and 1 otherwise; it returns true either way.
pub signup_user_branches :
    (r : Registration) (port : ℕ) (uname password : List ℕ)
    → IsOpen r.connection
    → IsReceived r uname password
    → let hash = r.hash_sha_256 password in
      signup_user r port []
      ≡ (returned true, opening port ++ cleaned_up ∷ enrolled uname hash (r.execute uname hash))
unfolding signup_user
signup_user_branches r port uname password o h =
    let (b, e, s) = recv_password-received r port password o h.password_came in
    elim (Bool-cases (r.execute uname (r.hash_sha_256 password))) [
      | inl t ↦ rw h.name_came (rw h.name_ends (rw e (rw s (rw t refl))))
      | inr f ↦ rw h.name_came (rw h.name_ends (rw e (rw s (rw f refl))))
    ]

-- The hash in the first row that was inserted for a name.
abbrev pub stored : List ℕ → List Action → Option (List ℕ)
stored u [] = none
stored u (inserted n h ∷ log) = if same n u then some h else stored u log
stored u (locked ∷ log) = stored u log
stored u (unlocked ∷ log) = stored u log
stored u (assigned n ∷ log) = stored u log
stored u (sent_short n ∷ log) = stored u log
stored u (wrote t ∷ log) = stored u log
stored u (cleaned_up ∷ log) = stored u log

-- Who signed up can log in: if the row was inserted, and the database answers the query for the
-- name by the row that the sign-up inserted for it, then a login with the same name, password and
-- hash on an open connection returns true, provided that the query does not throw and the random
-- string is drawn and ends within its bytes.
pub signup-login :
    (g : Registration) (r : Request) (port port' : ℕ) (uname password bytes randstr : List ℕ)
    → IsOpen g.connection
    → IsReceived g uname password
    → g.execute uname (g.hash_sha_256 password) ≡ true
    → r.execute_query (query uname) ≡ stored uname (signup_user g port []).1
    → g.hash_sha_256 password ≡ r.hash_sha_256 password
    → IsOpen r.connection
    → received_name r ≡ some uname
    → received_password r ≡ some password
    → r.query_throws (query uname) ≡ false
    → r.random ≡ some bytes
    → c_string bytes ≡ some randstr
    → (login_user r port' []).0 ≡ returned true
signup-login g r port port' uname password bytes randstr og hg put db hashed o n p answered drawn
      ends =
    let signed = signup_user_branches g port uname password og hg in
    let row : r.execute_query (query uname) ≡ some (r.hash_sha_256 password) =
      rw (db, signed, put, same_refl uname) (ap some hashed) in
    rw (login_user_branches r port' uname password bytes randstr o n p answered drawn ends)
      (rw row (rw (same_refl (r.hash_sha_256 password)) refl))
