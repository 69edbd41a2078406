-- ===== src/TokenTable/Examples.antt =====
-- The theorems about the table of users at concrete tables.
use inferno_game_server.Base.{
  ℕ, ◌≡◌, ◌↔◌, true, refl, List, [], ◌∷◌, ◌++◌, none, ok, arith, replicate,
}
use inferno_game_server.Base.Bytes.{c_string, strlen, clear}
use inferno_game_server.TokenTable.{
  Table, Timeval, Datagram, empty, micros, scrub_list, admit, receive_new,
}
use inferno_game_server.TokenTable.Scrub.{IsConsistent}
use inferno_game_server.TokenTable.Accounts.{book, blank, replay, run_refines}
use inferno_game_server.TokenTable.History.{scrubbed, Event, login, run, history-IsConsistent}
use inferno_game_server.TokenTable.Update.{
  Pass, IsEnded, update, chat_server, Returns, survives, chat_server-survives,
}

abbrev ann : List ℕ
ann = 97 ∷ []

abbrev bob : List ℕ
bob = 98 ∷ []

abbrev at_second : ℕ → Timeval
at_second s = record { tv_sec = s; tv_usec = 0 }

-- ann logged in at second 0, bob at second 100.
abbrev both : Table
both = record {
  current_users =
      record { username = ann; token = 1 ∷ [] } ∷ record { username = bob; token = 2 ∷ [] } ∷ [];
  expiry =
      record { username = ann; time = 300000000 }
      ∷ record { username = bob; time = 400000000 }
      ∷ [];
}

abbrev only_bob : Table
only_bob = record {
  current_users = record { username = bob; token = 2 ∷ [] } ∷ [];
  expiry = record { username = bob; time = 400000000 } ∷ [];
}

both_events :
    run (login ann (1 ∷ []) (at_second 0) ∷ login bob (2 ∷ []) (at_second 100) ∷ []) empty ≡ ok both
unfolding run empty admit
both_events = refl

history-IsConsistent_example : IsConsistent both
unfolding micros
history-IsConsistent_example =
    history-IsConsistent
      (login ann (1 ∷ []) (at_second 0) ∷ login bob (2 ∷ []) (at_second 100) ∷ []) both
      (omega arith) both_events

both_scrubbed : scrub_list (at_second 350) both ≡ ok only_bob
unfolding scrub_list
both_scrubbed = refl

abbrev stack_bytes : List ℕ
stack_bytes = 0 ∷ replicate 63 7 ++ ann ++ replicate 20 0

abbrev token_packet : Datagram
token_packet = record { bytes = replicate 64 b'f' ++ bob; tv = at_second 0 }

abbrev garbled : Table
garbled = record {
  current_users = record { username = ann; token = [] } ∷ [];
  expiry = record { username = ann; time = 300000000 } ∷ [];
}

garbled_lem : receive_new stack_bytes (0 ∷ []) (0 ∷ []) (token_packet ∷ []) true empty ≡ ok garbled
unfolding receive_new empty
garbled_lem = refl

abbrev day : List Event
day =
    login ann (1 ∷ []) (at_second 0)
    ∷ login bob (2 ∷ []) (at_second 100)
    ∷ scrubbed (at_second 350)
    ∷ []

day_lem : run day empty ≡ ok only_bob
unfolding run empty scrub_list admit
day_lem = refl

run_refines_example : book only_bob ≡ replay day blank
unfolding micros
run_refines_example = run_refines day only_bob (omega arith) day_lem

abbrev pass_of : List Datagram → ℕ → Pass
pass_of ds s = record {
  buffer = stack_bytes;
  token_buffer = 0 ∷ [];
  uname_buffer = 0 ∷ [];
  datagrams = ds;
  fails = true;
  tv = at_second s;
}

pass_of-IsEnded : (ds : List Datagram) (s : ℕ) → IsEnded (pass_of ds s)
unfolding strlen c_string clear
pass_of-IsEnded ds s = record {
  n = 0;
  token_n = 0;
  uname_n = 0;
  name = ann;
  buffer = refl;
  token_buffer = refl;
  uname_buffer = refl;
  named = refl;
}

-- The second pass is more than five minutes after the only datagram.
abbrev passes : List Pass
passes = pass_of (token_packet ∷ []) 100 ∷ pass_of [] 301 ∷ []

chat_server-survives_example :
    (Returns (update passes (chat_server none none).table)) ↔ (survives 0 passes ≡ true)
unfolding micros
chat_server-survives_example =
    chat_server-survives none none passes
      (pass_of-IsEnded (token_packet ∷ []) 100, (pass_of-IsEnded [] 301, tt)) (omega arith)
