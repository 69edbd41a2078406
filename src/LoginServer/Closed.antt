-- ===== src/LoginServer/Closed.antt =====
-- Logins after a child has closed the session with the database (LoginServer.cxx): the destructor of the
-- server, run by a child that returns from `main`, against the query of `login_user` in the later ones.
use inferno_game_server.Base.{
  ℕ, ◌≡◌, ◌⊎◌, inl, inr, refl, ◌∙◌, subst, true, List, [], ◌∷◌, none, some,
}
use inferno_game_server.LoginServer.Handler.{Action, sent_short, fault, sql_exception}
use inferno_game_server.LoginServer.Login.{Request, query, lookup_user, login_user}
use inferno_game_server.LoginServer.Access.{IsOpen, received_name, opening, login_user-lookup}
use inferno_game_server.LoginServer.Writers.{login_user-IsWriter}
use inferno_game_server.LoginServer.Requests.{
  Client, Server, Accept, refused, accepted, unforked, End, exits, leaves_loop, faulted, serve,
  rounds, get_request_type,
}
use inferno_game_server.LoginServer.Children.{children, rounds-children}
use inferno_game_server.LoginServer.Inserts.{Row, rows}
use inferno_game_server.LoginServer.Database.{Database, attach, committed, used, in_turn, after}
use inferno_game_server.LoginServer.Lives.{LogsIn}

-- A child that returned from `main`.
abbrev pub SomeLeft : List (End × List Action) → Type 0
SomeLeft [] = ⊥
SomeLeft (q ∷ qs) = (q.0 ≡ leaves_loop) ⊎ SomeLeft qs

-- A login on an open connection, where the query throws once the name has come.
login_user-throws :
    (r : Request) (port : ℕ) (uname : List ℕ)
    → IsOpen r.connection
    → received_name r ≡ some uname
    → r.query_throws (query uname) ≡ true
    → login_user r port [] ≡ (fault sql_exception, opening port)
unfolding lookup_user
login_user-throws r port uname o h throws = login_user-lookup r port uname o h ∙ rw throws refl

serve-throws :
    (s : Server) (c : Client) (uname password randstr : List ℕ)
    → LogsIn c uname password randstr
    → c.request.query_throws (query uname) ≡ true
    → serve s c ≡ (faulted sql_exception, sent_short 1 ∷ opening s.next_login_port)
unfolding serve get_request_type
serve-throws s c uname password randstr l throws =
    rw
      (
        l.asks,
        l.told,
        (login_user-IsWriter c.request s.next_login_port).adds (sent_short 1 ∷ []),
        login_user-throws c.request s.next_login_port uname l.opens l.name throws,
      )
      refl

module _ {D : Type 0} (db : Database D) where
  -- Every statement throws.
  pub record IsClosed (d : D) : Type 0 where
    pub queries : (q : List ℕ) → db.throws q d ≡ true
    pub inserts_none : (u h : List ℕ) → db.execute u h d ≡ none

  committed-IsClosed : (rs : List Row) (d : D) → IsClosed d → committed db rs d ≡ d
  unfolding committed
  committed-IsClosed [] d k = refl
  committed-IsClosed (row ∷ rs) d k =
      rw (k.inserts_none row.username row.password_hash) (committed-IsClosed rs d k)

  module _ (closes : (d : D) → IsClosed (db.close d)) where
    used-left : (q : End × List Action) (d : D) → q.0 ≡ leaves_loop → IsClosed (used db q d)
    unfolding used
    used-left (exits, log) d e = cc
    used-left (leaves_loop, log) d e = closes (committed db (rows log) d)
    used-left (faulted f, log) d e = cc

    used-IsClosed : (q : End × List Action) (d : D) → IsClosed d → IsClosed (used db q d)
    unfolding used
    used-IsClosed (exits, log) d k = rw (committed-IsClosed (rows log) d k) k
    used-IsClosed (leaves_loop, log) d k = closes (committed db (rows log) d)
    used-IsClosed (faulted f, log) d k = rw (committed-IsClosed (rows log) d k) k

    after-IsClosed :
        (s : Server) (as' : List Accept) (d : D) → IsClosed d → IsClosed (after db s as' d)
    unfolding after
    after-IsClosed s [] d k = k
    after-IsClosed s (refused ∷ as') d k = after-IsClosed s as' d k
    after-IsClosed s (unforked fd ∷ as') d k = after-IsClosed s as' d k
    after-IsClosed s (accepted fd c ∷ as') d k =
        let q = serve s (attach db d c) in after-IsClosed s as' (used db q d) (used-IsClosed q d k)

    children-close :
        (s : Server) (as' : List Accept) (d : D)
        → SomeLeft (children s (in_turn db s as' d))
        → IsClosed (after db s as' d)
    unfolding in_turn after
    children-close s [] d l = absurd l
    children-close s (refused ∷ as') d l = children-close s as' d l
    children-close s (unforked fd ∷ as') d l = children-close s as' d l
    children-close s (accepted fd c ∷ as') d (inl e) =
        let q = serve s (attach db d c) in after-IsClosed s as' (used db q d) (used-left q d e)
    children-close s (accepted fd c ∷ as') d (inr l) =
        children-close s as' (used db (serve s (attach db d c)) d) l

    -- A client that takes the session takes it from all. Let every statement throw on a session that is
    -- closed. Then after any connections, taken in the order in which their children use the database, of
    -- which some child returned from `main`, a client that logs in on an open connection hears nothing
    -- after its name, whoever has signed up: the child ends by an SQLException.
    pub login_after_close :
        (s : Server) (as' : List Accept) (d : D) (c : Client) (uname password randstr : List ℕ)
        → SomeLeft (rounds s (in_turn db s as' d)).1
        → LogsIn c uname password randstr
        → serve s (attach db (after db s as' d) c)
          ≡ (faulted sql_exception, sent_short 1 ∷ opening s.next_login_port)
    login_after_close s as' d c uname password randstr left l =
        let left' = subst (λ q. SomeLeft q.1) (rounds-children s (in_turn db s as' d)) left in
        let k = children-close s as' d left' in
        serve-throws s (attach db (after db s as' d) c) uname password randstr
          (record {
            asks = l.asks;
            told = l.told;
            opens = l.opens;
            name = l.name;
            secret = l.secret;
            bytes = l.bytes;
            drawn = l.drawn;
            ends = l.ends;
          })
          (k.queries (query uname))
