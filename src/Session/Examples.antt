-- ===== src/Session/Examples.antt =====
-- The theorems about chat sessions on small sessions.
use inferno_game_server.Base.{
  All, ℕ, zero, suc, ◌≡◌, ◌≢◌, refl, true, false, ◌&&◌, ◌||◌, List, [], ◌∷◌, ok, err, none, some,
  Bool, arith, ltb, ◌==◌, if◌then◌else◌,
}
use inferno_game_server.Session.{
  red, Clients, add_client, State, Send, Received, got, packet, waits, refused, ran_out, World,
  handle_recv, handle_accept, broadcast, sweep, pass, enter_main_loop,
}
use inferno_game_server.Session.Teams.{IsWithin, start, added, Reachable-IsWithin}
use inferno_game_server.Session.Broadcast.{sends_to, is_recipient, handle_recv_recipients}
use inferno_game_server.Session.Fuel.{pass_has_fuel}
use inferno_game_server.Listeners.{Address}
use inferno_game_server.Session.Launch.{
  Members, returns, enter, run_session, launch, session_course,
}
use inferno_game_server.Session.Forgets.{IsOut, loop_forgets}

abbrev nobody : Clients
nobody = record { red_clients = []; blue_clients = [] }

abbrev one : Clients
one = (add_client 1 7 red nobody).0

Reachable-IsWithin_example : IsWithin 1 nobody (add_client 1 8 red one).0
Reachable-IsWithin_example =
    Reachable-IsWithin 1 nobody (add_client 1 8 red one).0
      (added 8 red one (added 7 red nobody start))

-- The connection socket 3 and the clients 4, 5 and 6.
abbrev crowd : State
crowd = record { max_fd = 6; client_set = λ i. ltb 2 i && ltb i 7 }

handle_recv_recipients_example :
    (ms : List Send) × (handle_recv 3 4 (got 1 []) crowd ≡ ok (crowd, ms))
    × All (λ m. m.bytes ≡ packet 1 []) ms
    × ((j : ℕ) → sends_to j ms ≡ (if ltb j 6 && is_recipient 3 4 crowd.client_set j then 1 else 0))
handle_recv_recipients_example = handle_recv_recipients 3 4 1 [] crowd

abbrev typing : ℕ → Received
typing zero = waits
typing (suc i) = if suc i == 4 then got 1 [] else waits

-- Client 4 sends while 5 and 6 are silent.
abbrev busy : World
busy = record { select_ok = true; ready = λ i. i == 4; accept = refused; recv = typing }

pass_has_fuel_example : pass 3 busy crowd ≢ err ran_out
pass_has_fuel_example = pass_has_fuel 3 busy crowd tt (omega arith)

-- Client 4 sends, alone in the set with the connection socket 3, which is not ready.
abbrev couple : State
couple = record { max_fd = 4; client_set = λ i. i == 3 || i == 4 }

abbrev alone : State
alone = record { max_fd = 4; client_set = λ i. i == 4 }

couple_lem : enter_main_loop 3 (busy ∷ []) couple ≡ ok (alone, [])
unfolding enter_main_loop pass sweep handle_recv handle_accept broadcast
couple_lem = refl

only_members : (i : ℕ) → (i == 3 || i == 4) ≡ false → (i == 4) ≡ false
only_members i h = ground (arith, h)

loop_forgets_example : IsOut 3 (alone, [])
loop_forgets_example =
    loop_forgets 3 3 busy [] couple (alone, []) (λ e. cc, tt) (only_members, λ r e. tt) refl
      couple_lem

abbrev members : Members
members = record {
  id = 0;
  max_clients = 6;
  team_size = 3;
  clients = nobody;
  client_set = λ i. false;
  logs = true;
}

abbrev address : Address
address = record { fd = some 3; reusable = true; takes = true }

session_course_example :
    (run_session members (some (address ∷ [])) true none (busy ∷ [])
      ≡ enter members (busy ∷ []) (some 3))
    × ((memory : ℕ → Bool) → launch memory (some (address ∷ [])) true none (busy ∷ []) ≢ returns)
session_course_example = session_course members (address ∷ []) true none (busy ∷ [])
