-- ===== src/MatchMaker/Examples.antt =====
-- The theorem about the match maker on one pass.
use inferno_game_server.Base.{◌≡◌, true, [], ◌∷◌, none, some, err}
use inferno_game_server.TokenTable.{undefined, Table}
use inferno_game_server.TokenTable.Update.{Pass, update}
use inferno_game_server.MatchMaker.{match_maker, update_tokens, allocated, match_maker_updates}

abbrev quiet_pass : Pass
quiet_pass = record {
  buffer = 0 ∷ [];
  token_buffer = 0 ∷ [];
  uname_buffer = 0 ∷ [];
  datagrams = [];
  fails = true;
  tv = record { tv_sec = 1; tv_usec = 0 };
}

match_maker_updates_example :
    ((t : Table)
      → update_tokens (quiet_pass ∷ []) (some t) ≡ allocated (update (quiet_pass ∷ []) t))
    × ((quiet_pass.fails ≡ true)
        → update_tokens (quiet_pass ∷ quiet_pass ∷ []) (match_maker none).table ≡ err undefined)
match_maker_updates_example = match_maker_updates none quiet_pass (quiet_pass ∷ [])
