-- ===== src/Listeners/Examples.antt =====
-- The set-ups of sockets on three addresses: without a socket, refused by `bind`, and bound.
use inferno_game_server.Base.{true, false, List, [], ◌∷◌, none, some}
use inferno_game_server.Listeners.{Address, initialize}
use inferno_game_server.Listeners.Usable.{usable}
use inferno_game_server.Listeners.FirstUsable.{Implements, initialize_refines}

abbrev addresses : List Address
addresses =
    record { fd = none; reusable = true; takes = false }
    ∷ record { fd = some 4; reusable = true; takes = false }
    ∷ record { fd = some 4; reusable = true; takes = true }
    ∷ []

initialize_refines_example :
    Implements (initialize (some addresses) none) (some (usable 4)) (some 4) 1
initialize_refines_example = initialize_refines addresses none
