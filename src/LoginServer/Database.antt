-- ===== src/LoginServer/Database.antt =====
-- The credentials that the children of the login server share (LoginServer.cxx): the table that the
-- INSERT of `signup_user` and the SELECT of `login_user` work on. The database is third-party code: it
-- is a section parameter, with laws as hypotheses.
use inferno_game_server.Base.{
  ℕ, ◌<◌, ◌≤◌, ◌≡◌, ◌≢◌, ◌⊎◌, Bool, true, false, List, [], ◌∷◌, Option, none, some, All,
}
use inferno_game_server.LoginServer.Login.{query}
use inferno_game_server.LoginServer.Requests.{
  Client, Server, Accept, refused, accepted, unforked, End, exits, leaves_loop, faulted, serve,
}
use inferno_game_server.LoginServer.Handler.{Action}
use inferno_game_server.LoginServer.Inserts.{Row, rows}

-- A state of the database, and of the session with it that the children share, answers a SELECT by the
-- password_hash of the first row, if there is a row, or by an SQLException; and an INSERT of a name and a
-- hash by its next state, or by an SQLException. `close` ends the session.
pub record Database (D : Type 0) : Type 0 where
  pub throws : List ℕ → D → Bool
  pub execute_query : List ℕ → D → Option (List ℕ)
  pub execute : List ℕ → List ℕ → D → Option D
  pub close : D → D

-- Lower-case letters and digits: nothing that an SQL string or a collation gives another meaning.
abbrev pub IsPlain : List ℕ → Type 0
IsPlain = All (λ c. ((48 ≤ c) × (c < 58)) ⊎ ((97 ≤ c) × (c < 123)))

-- What SQL promises of a table of names and hashes, and of the session while it is open; nothing is said of
-- it once it is closed. Nothing is said of whether an INSERT is accepted,
-- nor of names with other characters in the SELECT.
pub record IsTable {D : Type 0} (db : Database D) : Type 0 where
  -- a SELECT that was answered still is
  pub answers :
      (u v h : List ℕ) (d d' : D)
      → IsPlain u
      → db.throws (query u) d ≡ false
      → db.execute v h d ≡ some d'
      → db.throws (query u) d' ≡ false
  -- the row of a name that had none is found
  pub found :
      (u h : List ℕ) (d d' : D)
      → IsPlain u
      → db.execute_query (query u) d ≡ none
      → db.execute u h d ≡ some d'
      → db.execute_query (query u) d' ≡ some h
  -- a row that was there is still the first: the name is a key, or the rows are read in order
  pub kept :
      (u h h' : List ℕ) (d d' : D)
      → IsPlain u
      → db.execute_query (query u) d ≡ some h
      → db.execute u h' d ≡ some d'
      → db.execute_query (query u) d' ≡ some h
  -- the row of another name makes no difference
  pub apart :
      (u v h : List ℕ) (d d' : D)
      → IsPlain u
      → IsPlain v
      → v ≢ u
      → db.execute v h d ≡ some d'
      → db.execute_query (query u) d' ≡ db.execute_query (query u) d

abbrev pub accepts : {D : Type 0} → Option D → Bool
accepts none = false
accepts (some d) = true

abbrev pub or_same : {D : Type 0} → D → Option D → D
or_same d none = d
or_same d (some d') = d'

module _ {D : Type 0} (db : Database D) where
  -- A client whose child works on the database in a state, as the connection `con` gives it.
  abbrev pub attach : D → Client → Client
  attach d c = record c {
    request = record c.request {
      query_throws = λ q. db.throws q d;
      execute_query = λ q. db.execute_query q d;
    };
    registration = record c.registration { execute = λ u h. accepts (db.execute u h d) };
  }

  -- The state after INSERTs of rows.
  unfoldable pub committed : List Row → D → D
  committed [] d = d
  committed (row ∷ rs) d = committed rs (or_same d (db.execute row.username row.password_hash d))

  -- The state after a child: one that leaves the loop returns from `main`, and the destructor of
  -- its copy of the server deletes `con`.
  abbrev pub closed_by : End → D → D
  closed_by exits d = d
  closed_by leaves_loop d = db.close d
  closed_by (faulted e) d = d

  unfoldable pub used : End × List Action → D → D
  unfolding committed
  used (e, log) d = closed_by e (committed (rows log) d)

  -- The accepted connections, in the order in which their children use the database. A child does so at
  -- most once, so that each has one state of it ...
  unfoldable pub in_turn : Server → List Accept → D → List Accept
  unfolding used
  in_turn s [] d = []
  in_turn s (refused ∷ as') d = refused ∷ in_turn s as' d
  in_turn s (unforked fd ∷ as') d = unforked fd ∷ in_turn s as' d
  in_turn s (accepted fd c ∷ as') d =
      accepted fd (attach d c) ∷ in_turn s as' (used (serve s (attach d c)) d)

  -- ... and the state of the database then.
  unfoldable pub after : Server → List Accept → D → D
  unfolding used
  after s [] d = d
  after s (refused ∷ as') d = after s as' d
  after s (unforked fd ∷ as') d = after s as' d
  after s (accepted fd c ∷ as') d = after s as' (used (serve s (attach d c)) d)
