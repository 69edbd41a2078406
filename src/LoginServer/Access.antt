-- ===== src/LoginServer/Access.antt =====
-- Who is let in by `login_user` (LoginServer.cxx), and what a client is told on each branch.
use inferno_game_server.Base.{
  ℕ, ◌%◌, ◌≡◌, ◌∙◌, ◌⊎◌, inl, inr, refl, Bool, true, false, List, [], ◌∷◌, ◌++◌, Option, none, some,
  Bool-cases, Result, ok, err, arith, replicate, if◌then◌else◌,
}
use inferno_game_server.Base.Int.{pos}
use inferno_game_server.Base.Bytes.{same, c_string}
use inferno_game_server.LoginServer.Handler.{
  Action, Fault, done, returned, locked, unlocked, assigned, sent_short, wrote, cleaned_up,
  continue,
}
use inferno_game_server.LoginServer.Ports.{next_port}
use inferno_game_server.LoginServer.Secure.{
  Connection, accept_secure, fetch_ssl_context, rng_get_aes_str,
}
use inferno_game_server.LoginServer.Reads.{signed16, read_name, read_password}
use inferno_game_server.LoginServer.Login.{
  Request, query, lookup_user, check_password, authenticate, authenticated, login_user,
}

-- The C string that a loop received.
abbrev pub received : Result Fault (List ℕ) → Option (List ℕ)
received (ok s) = c_string s
received (err e) = none

abbrev pub received_name : Request → Option (List ℕ)
received_name r = received (read_name (signed16 r.name_len) (pos 0) (replicate 16 0) r.name_reads)

abbrev pub received_password : Request → Option (List ℕ)
received_password r =
    received (read_password (signed16 r.pass_len) (pos 0) (replicate 64 0) r.pass_reads)

-- Every call up to the accepted SSL connection succeeds.
pub record IsOpen (c : Connection) : Type 0 where
  pub context : fetch_ssl_context c.library ≡ true
  pub send_port : c.send_port ≡ true
  pub bio_new_accept : c.bio_new_accept ≡ true
  pub bio_do_accept : c.bio_do_accept ≡ true
  pub bio_do_accept_again : c.bio_do_accept_again ≡ true
  pub ssl_new : c.ssl_new ≡ true
  pub ssl_accept : c.ssl_accept ≡ true

-- What `accept_secure` does in every case.
abbrev pub opening : ℕ → List Action
opening port = locked ∷ assigned (next_port port) ∷ unlocked ∷ sent_short (port % 65536) ∷ []

pub accept_secure-cases :
    (c : Connection) (port : ℕ)
    → (IsOpen c × (accept_secure c port [] ≡ (done (next_port port), opening port)))
      ⊎ (accept_secure c port [] ≡ (returned false, opening port))
unfolding accept_secure
accept_secure-cases c port = ground arith

pub accept_secure_open :
    (c : Connection) (port : ℕ)
    → IsOpen c
    → accept_secure c port [] ≡ (done (next_port port), opening port)
unfolding accept_secure
accept_secure_open c port o = ground arith

pub received-eq-some :
    (res : Result Fault (List ℕ)) {s : List ℕ}
    → received res ≡ some s
    → (buffer : List ℕ) × (res ≡ ok buffer) × (c_string buffer ≡ some s)
received-eq-some (ok b) h = (b, refl, h)
received-eq-some (err e) h = cc

-- A login up to the lookup.
pub login_user-lookup :
    (r : Request) (port : ℕ) (uname : List ℕ)
    → IsOpen r.connection
    → received_name r ≡ some uname
    → login_user r port []
      ≡ continue
          (lookup_user
            (r.query_throws (query uname))
            (r.execute_query (query uname))
            (opening port))
          (authenticate r)
unfolding login_user
login_user-lookup r port uname o h =
    let (b, e, s) = received-eq-some _ h in
    rw (accept_secure_open r.connection port o) (rw e (rw s))

pub authenticate-check :
    (r : Request) (stored password : List ℕ) (log : List Action)
    → received_password r ≡ some password
    → authenticate r stored log
      ≡ continue (check_password (same (r.hash_sha_256 password) stored) log) (λ _. authenticated r)
unfolding authenticate authenticated
authenticate-check r stored password log h = let (b, e, s) = received-eq-some _ h in rw e (rw s)

-- What a client is told after its name: first whether the database has it, then whether the password has
-- the stored hash, then the token.
abbrev pub answer : List ℕ → List ℕ → Option (List ℕ) → Bool × List Action
answer hash token none = (false, sent_short 1 ∷ [])
answer hash token (some stored_hash) =
    if same hash stored_hash
    then (true, sent_short 0 ∷ sent_short 0 ∷ wrote token ∷ cleaned_up ∷ [])
    else (false, sent_short 0 ∷ sent_short 1 ∷ [])

answer-row :
    (r : Request) (port : ℕ) (row : Option (List ℕ)) (password bytes randstr : List ℕ)
    → received_password r ≡ some password
    → r.random ≡ some bytes
    → c_string bytes ≡ some randstr
    → let told = answer (r.hash_sha_256 password) (r.hash_sha_256 randstr) row in
      continue (lookup_user false row (opening port)) (authenticate r)
      ≡ (returned told.0, opening port ++ told.1)
unfolding lookup_user check_password authenticated rng_get_aes_str
answer-row r port none password bytes randstr pass drawn ends = refl
answer-row r port (some stored_hash) password bytes randstr pass drawn ends =
    let checked =
      authenticate-check r stored_hash password (opening port ++ sent_short 0 ∷ []) pass in
    elim (Bool-cases (same (r.hash_sha_256 password) stored_hash)) [
      | inl right ↦ rw checked (rw right (rw drawn (rw ends)))
      | inr wrong ↦ rw checked (rw wrong)
    ]

-- On an open connection, once the client's name and password have come, and if the query is
-- answered and the random string is drawn and ends within its bytes: a name that the database does
-- not have is refused with 1; a name that it has is answered by 0, and then a password of another
-- hash than the stored one is refused with 1, and one of that hash is answered by 0 and by the hash
-- of the random string, and true is returned.
pub login_user_branches :
    (r : Request) (port : ℕ) (uname password bytes randstr : List ℕ)
    → IsOpen r.connection
    → received_name r ≡ some uname
    → received_password r ≡ some password
    → r.query_throws (query uname) ≡ false
    → r.random ≡ some bytes
    → c_string bytes ≡ some randstr
    → let told =
        answer (r.hash_sha_256 password) (r.hash_sha_256 randstr) (r.execute_query (query uname)) in
      login_user r port [] ≡ (returned told.0, opening port ++ told.1)
login_user_branches r port uname password bytes randstr o h pass answered drawn ends =
    login_user-lookup r port uname o h
    ∙ rw answered
        (answer-row r port (r.execute_query (query uname)) password bytes randstr pass drawn ends)
