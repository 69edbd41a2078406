-- ===== src/Notification/Examples.antt =====
-- The theorem about notifications on two users.
use inferno_game_server.Base.{ℕ, Bool, ◌≡◌, ◌≢◌, refl, false, true, List, [], ◌∷◌, some}
use inferno_game_server.LoginServer.Auth.{
  Peer, Verdict, confirmed, chat_server_auth, match_server_auth,
}
use inferno_game_server.TokenTable
use inferno_game_server.TokenTable.{Table, Timeval}
use inferno_game_server.MatchMaker
use inferno_game_server.Notification.{copies, notification_lost}

abbrev ann : List ℕ
ann = 97 ∷ []

abbrev bob : List ℕ
bob = 98 ∷ []

abbrev token : List ℕ
token = 102 ∷ 48 ∷ []

abbrev quiet : Peer
quiet = record {
  memory = 0 ∷ [];
  sends = true;
  t0 = 0;
  passes = record { ack = false; t1 = 600000; sends = true; t0 = 600000 } ∷ [];
}

notification_lost_example :
    ((v : Verdict) (n : ℕ)
      → ((chat_server_auth token ann quiet ≡ some (v, n)) → v ≢ confirmed)
        × ((match_server_auth token ann quiet ≡ some (v, n)) → v ≢ confirmed))
    × ((buffer token_buffer uname_buffer : List ℕ) (tvs : List Timeval) (fails : Bool) (t : Table)
        → (TokenTable.receive_new buffer token_buffer uname_buffer (copies token ann tvs) fails t
            ≡ TokenTable.receive_new buffer token_buffer uname_buffer
                (copies token bob tvs)
                fails
                t)
          × (MatchMaker.receive_new buffer token_buffer uname_buffer (copies token ann tvs) fails t
              ≡ MatchMaker.receive_new buffer token_buffer uname_buffer
                  (copies token bob tvs)
                  fails
                  t))
notification_lost_example = notification_lost token ann token bob quiet (refl, tt)
