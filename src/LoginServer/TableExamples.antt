-- ===== src/LoginServer/TableExamples.antt =====
-- A table for the theorems about the login server and its database, and the theorems on it.
use inferno_game_server.Base.{
  ℕ, ◌∙◌, ◌<◌, ◌↔◌, ◌≡◌, refl, true, false, List, [], ◌∷◌, ◌++◌, Option, none, some, All, arith,
  replicate, if◌then◌else◌, inl, inr, Bool-cases,
}
use mathlib.Core.List.{append_cancel_left, append_cancel_right}
use inferno_game_server.Base.Bytes.{same, same_refl, same→eq, c_string, overlay, codes}
use inferno_game_server.LoginServer.Reads.{read_name, read_password, write_at}
use inferno_game_server.LoginServer.Login.{
  query, login_user, lookup_user, authenticate, authenticated, check_password,
}
use inferno_game_server.LoginServer.Signup.{receive_name, signup_user, recv_password}
use inferno_game_server.LoginServer.Secure.{
  accept_secure, rng_get_aes_str, fetch_ssl_context, fetch_diffie_hellman_handle,
}
use inferno_game_server.LoginServer.Ports.{next_port}
use inferno_game_server.LoginServer.Requests.{
  Client, Accept, accepted, refused, unforked, round, rounds, serve, get_request_type,
}
use inferno_game_server.LoginServer.Inserts.{Row}
use inferno_game_server.LoginServer.Database.{
  Database, IsPlain, IsTable, attach, in_turn, after, used, committed,
}
use inferno_game_server.LoginServer.Directory.{HasPlainName, AllSpare, entry, or_else, inserts}
use inferno_game_server.LoginServer.Lives.{
  LogsIn, SignsUp, reply, login_follows_directory, first_sign_up_decides,
}
use inferno_game_server.LoginServer.Accounts.{IsReceived}
use inferno_game_server.LoginServer.Launch.{fresh_server}
use inferno_game_server.LoginServer.Closing.{
  ServerMembers, all_finished, IsShort, SomeLeaves, session_closed,
}
use inferno_game_server.LoginServer.Examples.{
  connection-IsOpen, ann, ann-name, ann-password, random_bytes, random-ends, bob,
}

-- Rows in the order of their INSERTs, without a key.
unfoldable pub select : List ℕ → List Row → Option (List ℕ)
select q [] = none
select q (row ∷ d) = if same (query row.username) q then some row.password_hash else select q d

abbrev pub table : Database (List Row)
table = record {
  throws = λ q d. false;
  execute_query = select;
  execute = λ u h d. some (d ++ record { username = u; password_hash = h } ∷ []);
  close = λ d. d;
}

same-query : (u v : List ℕ) → same (query u) (query v) ≡ true → u ≡ v
unfolding query
same-query u v h =
    let prefix = codes "SELECT username, password_hash FROM credentials WHERE username='" in
    append_cancel_right u v (39 ∷ [])
      (append_cancel_left prefix (u ++ 39 ∷ []) (v ++ 39 ∷ []) (same→eq _ _ h))

select-append :
    (q : List ℕ) (d : List Row) (row : Row)
    → select q (d ++ row ∷ []) ≡ or_else (select q d) (select q (row ∷ []))
unfolding select
select-append q [] row = refl
select-append q (r ∷ d) row = elim (Bool-cases (same (query r.username) q)) [
  | inl e ↦ rw e refl
  | inr e ↦ rw e (select-append q d row)
]

or_else-none : (o : Option (List ℕ)) → or_else o none ≡ o
or_else-none none = refl
or_else-none (some h) = refl

select-inserted :
    (q u h : List ℕ) (d d' : List Row)
    → table.execute u h d ≡ some d'
    → select q d' ≡ or_else (select q d) (if same (query u) q then some h else none)
unfolding select
select-inserted q u h d d' e =
    let row : Row = record { username = u; password_hash = h } in
    let e' : d ++ row ∷ [] ≡ d' = cc in rw (← e') (select-append q d row)

pub table-IsTable : IsTable table
table-IsTable = record {
  answers = λ u v h d d' p a e. refl;
  found = λ u h d d' p none_yet e.
      select-inserted (query u) u h d d' e ∙ rw (none_yet, same_refl (query u)) refl;
  kept = λ u h h' d d' p held e. select-inserted (query u) u h' d d' e ∙ rw held refl;
  apart = λ u v h d d' pu pv ne e. elim (Bool-cases (same (query v) (query u))) [
    | inl q ↦ absurd (ne (same-query v u q))
    | inr q ↦ select-inserted (query u) v h d d' e ∙ rw q (or_else-none (select (query u) d))
  ];
}

abbrev pub asking : ℕ → Client
asking code = record {
  arrival = record { recv = some code; send_ack = true };
  request = ann;
  registration = bob;
}

pub asking-LogsIn : LogsIn (asking 0) (97 ∷ []) (112 ∷ []) (9 ∷ [])
asking-LogsIn = record {
  asks = refl;
  told = refl;
  opens = connection-IsOpen;
  name = ann-name;
  secret = ann-password;
  bytes = random_bytes;
  drawn = refl;
  ends = random-ends;
}

bob-IsReceived : IsReceived bob (97 ∷ []) (112 ∷ [])
unfolding receive_name read_password c_string overlay
bob-IsReceived = record {
  name_buffer = 97 ∷ replicate 15 0;
  name_came = refl;
  name_ends = refl;
  password_came = refl;
}

asking-SignsUp : SignsUp (asking 1) (97 ∷ []) (112 ∷ [])
asking-SignsUp = record {
  asks = refl;
  told = refl;
  opens = connection-IsOpen;
  received = bob-IsReceived;
}

-- A refused connection, a second sign-up with the same name, and a login.
abbrev visitors : List Accept
visitors = refused ∷ unforked 8 ∷ accepted 6 (asking 1) ∷ accepted 7 (asking 0) ∷ []

pub ann-IsPlain : IsPlain (97 ∷ [])
ann-IsPlain = (inr (omega arith, omega arith), tt)

pub no_rows : select (query (97 ∷ [])) [] ≡ none
unfolding select
no_rows = refl

abbrev served : List Accept → List Row
served as' = inserts (rounds fresh_server (in_turn table fresh_server as' [])).1

abbrev a_row : Row
a_row = record { username = 97 ∷ []; password_hash = 7 ∷ 112 ∷ [] }

served_twice : served (accepted 5 (asking 1) ∷ visitors) ≡ a_row ∷ a_row ∷ []
unfolding rounds round in_turn used committed serve get_request_type signup_user login_user
    accept_secure receive_name recv_password read_password read_name lookup_user authenticate
    authenticated check_password rng_get_aes_str fetch_ssl_context fetch_diffie_hellman_handle
    write_at c_string overlay next_port select query same
served_twice = refl

served_once : served visitors ≡ a_row ∷ []
unfolding rounds round in_turn used committed serve get_request_type signup_user login_user
    accept_secure receive_name recv_password read_password read_name lookup_user authenticate
    authenticated check_password rng_get_aes_str fetch_ssl_context fetch_diffie_hellman_handle
    write_at c_string overlay next_port select query same
served_once = refl

abbrev ChildrenSpare : List Accept → Type 0
ChildrenSpare as' = AllSpare (rounds fresh_server (in_turn table fresh_server as' [])).1

served_twice-spare : ChildrenSpare (accepted 5 (asking 1) ∷ visitors)
unfolding rounds round in_turn used committed serve get_request_type signup_user login_user
    accept_secure receive_name recv_password read_password read_name lookup_user authenticate
    authenticated check_password rng_get_aes_str fetch_ssl_context fetch_diffie_hellman_handle
    write_at c_string overlay next_port select query same
served_twice-spare = (tt, (tt, (tt, tt)))

served_once-spare : ChildrenSpare visitors
unfolding rounds round in_turn used committed serve get_request_type signup_user login_user
    accept_secure receive_name recv_password read_password read_name lookup_user authenticate
    authenticated check_password rng_get_aes_str fetch_ssl_context fetch_diffie_hellman_handle
    write_at c_string overlay next_port select query same
served_once-spare = (tt, (tt, tt))

served_once-plain : All HasPlainName (served visitors)
served_once-plain = rw served_once (ann-IsPlain, tt)

login_follows_directory_example :
    serve fresh_server (attach table (after table fresh_server visitors []) (asking 0))
    ≡ reply fresh_server (asking 0) (112 ∷ []) (9 ∷ []) (entry (97 ∷ []) (served visitors))
login_follows_directory_example =
    login_follows_directory table table-IsTable fresh_server visitors [] (asking 0) (97 ∷ [])
      (112 ∷ []) (9 ∷ []) ann-IsPlain refl no_rows asking-LogsIn served_once-spare served_once-plain

first_sign_up_decides_example :
    serve fresh_server
      (attach table (after table fresh_server (accepted 5 (asking 1) ∷ visitors) []) (asking 0))
    ≡ reply fresh_server (asking 0) (112 ∷ []) (9 ∷ []) (some (7 ∷ 112 ∷ []))
first_sign_up_decides_example =
    first_sign_up_decides table table-IsTable fresh_server 5 (asking 1) (asking 0) visitors []
      (97 ∷ []) (112 ∷ []) (112 ∷ []) (9 ∷ []) ann-IsPlain refl no_rows asking-SignsUp refl
      asking-LogsIn served_twice-spare (rw served_twice (ann-IsPlain, (ann-IsPlain, tt)))

-- One client of three that sends 65535.
abbrev cutting : List Accept
cutting = accepted 5 (asking 0) ∷ refused ∷ accepted 6 (asking 65535) ∷ accepted 7 (asking 1) ∷ []

abbrev members : ServerMembers
members = record { sock = some 3; logfile = true; con = true; chat_sock = none; match_sock = none }

asking-IsShort : (code : ℕ) → code < 65536 → IsShort (asking code)
asking-IsShort code h = λ n e. ground arith

session_closed_example :
    ((all_finished (rounds fresh_server cutting).1 members).con ≡ false) ↔ SomeLeaves cutting
session_closed_example =
    session_closed fresh_server cutting members
      (
        asking-IsShort 0 (omega arith),
        (asking-IsShort 65535 (omega arith), (asking-IsShort 1 (omega arith), tt)),
      )
      refl
