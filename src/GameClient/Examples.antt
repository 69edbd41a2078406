-- ===== src/GameClient/Examples.antt =====
-- The theorems about the game client on a short run, and at a time where the differences overflow.
use inferno_game_server.Base.{◌+◌, ◌*◌, ◌≤◌, ◌≡◌, refl, true, [], ◌∷◌, List, none, some, ok, arith}
use inferno_game_server.Base.Int.{◌-ℤ◌}
use inferno_game_server.Listeners.{Address, scan_addresses}
use inferno_game_server.GameClient.{elapsed, Timeval, State, Turn, turn, run, game_client}
use inferno_game_server.GameClient.Pacing.{client_paced}

abbrev start : Timeval
start = record { tv_sec = 1; tv_usec = 0 }

abbrev address : Address
address = record { fd = some 4; reusable = true; takes = true }

abbrev turns : List Turn
turns =
    record { current = record { tv_sec = 1; tv_usec = 9000 }; sends = true }
    ∷ record { current = record { tv_sec = 1; tv_usec = 20000 }; sends = true }
    ∷ []

abbrev one_sent : State
one_sent = record { last = record { tv_sec = 1; tv_usec = 17000 }; sent = 1 }

turns_lem : (game_client (some (address ∷ [])) none start turns).1 ≡ ok one_sent
unfolding game_client run turn elapsed scan_addresses ◌-ℤ◌
turns_lem = refl

client_paced_example : 1000000 + 17000 * 1 ≤ 1020000
client_paced_example =
    client_paced (address ∷ []) none start turns one_sent (omega arith, (omega arith, tt)) turns_lem
