-- ===== src/Sockets/Timeout.antt =====
-- When a client times out (`is_timed_out`, Sockets/Client.cxx).
use inferno_game_server.Base.{ℕ, ◌+◌, ◌<◌, ◌≡◌, true, arith, leb, ltb, if◌then◌else◌}
use inferno_game_server.Sockets.{Client, update_timeout, is_timed_out}

-- For 136 years after a contact a client is timed out exactly from ten seconds on; but if the clock has
-- been set back to before the contact, by less than 136 years, the client is timed out at once.
pub is_timed_out-update_timeout :
    (c : Client) (contact now : ℕ)
    → now < contact + 4294967296
    → contact < now + 4294967287
    → let late = is_timed_out now (update_timeout contact c) in
      late ≡ (if ltb now contact then true else leb (contact + 10) now)
unfolding is_timed_out update_timeout
is_timed_out-update_timeout c contact now h k = ground arith
