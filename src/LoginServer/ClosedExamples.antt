-- ===== src/LoginServer/ClosedExamples.antt =====
-- A database whose session can be closed, and a login after that.
use inferno_game_server.Base.{
  ℕ, ◌≡◌, refl, inl, Bool, true, false, List, [], ◌∷◌, ◌++◌, Option, none, some,
}
use inferno_game_server.LoginServer.Handler.{sent_short, sql_exception}
use inferno_game_server.LoginServer.Access.{opening}
use inferno_game_server.LoginServer.Requests.{
  Accept, accepted, faulted, round, rounds, serve, get_request_type,
}
use inferno_game_server.LoginServer.Inserts.{Row}
use inferno_game_server.LoginServer.Database.{Database, attach, in_turn, after, used, committed}
use inferno_game_server.LoginServer.Launch.{fresh_server}
use inferno_game_server.LoginServer.Closed.{SomeLeft, IsClosed, login_after_close}
use inferno_game_server.LoginServer.TableExamples.{select, asking, asking-LogsIn}

-- The rows, while the session is open.
abbrev throws_closed : List ℕ → Option (List Row) → Bool
throws_closed q none = true
throws_closed q (some d) = false

abbrev select_open : List ℕ → Option (List Row) → Option (List ℕ)
select_open q none = none
select_open q (some d) = select q d

abbrev insert_open : List ℕ → List ℕ → Option (List Row) → Option (Option (List Row))
insert_open u h none = none
insert_open u h (some d) = some (some (d ++ record { username = u; password_hash = h } ∷ []))

abbrev session : Database (Option (List Row))
session = record {
  throws = throws_closed;
  execute_query = select_open;
  execute = insert_open;
  close = λ d. none;
}

session-IsClosed : (d : Option (List Row)) → IsClosed session (session.close d)
session-IsClosed d = record { queries = λ q. refl; inserts_none = λ u h. refl }

abbrev cut : List Accept
cut = accepted 5 (asking 65535) ∷ []

cut-left : SomeLeft (rounds fresh_server (in_turn session fresh_server cut (some []))).1
unfolding rounds round in_turn used committed serve get_request_type
cut-left = inl refl

login_after_close_example :
    serve fresh_server (attach session (after session fresh_server cut (some [])) (asking 0))
    ≡ (faulted sql_exception, sent_short 1 ∷ opening fresh_server.next_login_port)
login_after_close_example =
    login_after_close session session-IsClosed fresh_server cut (some []) (asking 0) (97 ∷ [])
      (112 ∷ []) (9 ∷ []) cut-left asking-LogsIn
