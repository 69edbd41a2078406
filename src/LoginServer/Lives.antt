-- ===== src/LoginServer/Lives.antt =====
-- What a name's first sign-up decides for every later login, through `start`'s children and the database
-- (LoginServer.cxx).
use inferno_game_server.Base.{
  ℕ, ◌≡◌, refl, ap, ◌∙◌, Bool, true, false, List, [], ◌∷◌, ◌++◌, Option, none, some, All,
}
use inferno_game_server.Base.Bytes.{same_refl, c_string}
use inferno_game_server.LoginServer.Handler.{Action, sent_short, cleaned_up, returned}
use inferno_game_server.LoginServer.Login.{query, login_user}
use inferno_game_server.LoginServer.Access.{
  IsOpen, received_name, received_password, opening, answer, login_user_branches,
}
use inferno_game_server.LoginServer.Accounts.{IsReceived, enrolled, signup_user_branches}
use inferno_game_server.LoginServer.Signup.{signup_user}
use inferno_game_server.LoginServer.Writers.{login_user-IsWriter, signup_user-IsWriter}
use inferno_game_server.LoginServer.Requests.{
  Client, Server, Accept, accepted, End, exits, serve, rounds, get_request_type,
}
use inferno_game_server.LoginServer.Children.{rounds-children}
use inferno_game_server.LoginServer.Inserts.{rows}
use inferno_game_server.LoginServer.Database.{
  Database, IsPlain, IsTable, attach, in_turn, after, accepts,
}
use inferno_game_server.LoginServer.Directory.{
  entry, or_else, HasPlainName, AllSpare, inserts, rounds-answers, rounds_refine,
}

-- A client that logs in with a name and a password, on an open connection, where a random string is drawn.
pub record LogsIn (c : Client) (uname password randstr : List ℕ) : Type 0 where
  pub asks : c.arrival.recv ≡ some 0
  pub told : c.arrival.send_ack ≡ true
  pub opens : IsOpen c.request.connection
  pub name : received_name c.request ≡ some uname
  pub secret : received_password c.request ≡ some password
  pub bytes : List ℕ
  pub drawn : c.request.random ≡ some bytes
  pub ends : c_string bytes ≡ some randstr

-- A client that signs up with a name and a password, on an open connection.
pub record SignsUp (c : Client) (uname password : List ℕ) : Type 0 where
  pub asks : c.arrival.recv ≡ some 1
  pub told : c.arrival.send_ack ≡ true
  pub opens : IsOpen c.registration.connection
  pub received : IsReceived c.registration uname password

-- A request with code 0 is a login, and one with code 1 a sign-up; the child then exits.
serve-login :
    (s : Server) (c : Client) (r : Bool) (log : List Action)
    → c.arrival.recv ≡ some 0
    → c.arrival.send_ack ≡ true
    → login_user c.request s.next_login_port [] ≡ (returned r, log)
    → serve s c ≡ (exits, sent_short 1 ∷ log)
unfolding serve get_request_type
serve-login s c r log asks told e =
    rw (asks, told, (login_user-IsWriter c.request s.next_login_port).adds (sent_short 1 ∷ []), e)
      refl

serve-signup :
    (s : Server) (c : Client) (r : Bool) (log : List Action)
    → c.arrival.recv ≡ some 1
    → c.arrival.send_ack ≡ true
    → signup_user c.registration s.next_registration_port [] ≡ (returned r, log)
    → serve s c ≡ (exits, sent_short 1 ∷ log)
unfolding serve get_request_type
serve-signup s c r log asks told e =
    rw
      (
        asks,
        told,
        (signup_user-IsWriter c.registration s.next_registration_port).adds (sent_short 1 ∷ []),
        e,
      )
      refl

-- How the child of a login ends, and what it does, given the row that the database has.
abbrev pub reply : Server → Client → List ℕ → List ℕ → Option (List ℕ) → End × List Action
reply s c password randstr row =
    let hash = c.request.hash_sha_256 in
    (
      exits,
      sent_short 1 ∷ opening s.next_login_port ++ (answer (hash password) (hash randstr) row).1,
    )

module _ {D : Type 0} (db : Database D) where
  -- What a login answers is read off the database.
  serve-LogsIn :
      (s : Server) (c : Client) (d : D) (uname password randstr : List ℕ)
      → LogsIn c uname password randstr
      → db.throws (query uname) d ≡ false
      → serve s (attach db d c) ≡ reply s c password randstr (db.execute_query (query uname) d)
  serve-LogsIn s c d uname password randstr l answered =
      let c' = attach db d c in
      serve-login s c' _ _ l.asks l.told (
        login_user_branches c'.request s.next_login_port uname password l.bytes randstr l.opens
          l.name l.secret answered l.drawn l.ends)

  -- A sign-up inserts its row if the database accepts it.
  serve-SignsUp :
      (s : Server) (g : Client) (d : D) (uname password : List ℕ)
      → SignsUp g uname password
      → let hash = g.registration.hash_sha_256 password in
        serve s (attach db d g) ≡ (
          exits,
          sent_short 1 ∷ opening s.next_registration_port
              ++ cleaned_up ∷ enrolled uname hash (accepts (db.execute uname hash d)),
        )
  serve-SignsUp s g d uname password l =
      let g' = attach db d g in
      serve-signup s g' _ _ l.asks l.told (
        signup_user_branches g'.registration s.next_registration_port uname password l.opens
          (record {
            name_buffer = l.received.name_buffer;
            name_came = l.received.name_came;
            name_ends = l.received.name_ends;
            password_came = l.received.password_came;
          }))

  signed-rows :
      (s : Server) (g : Client) (d : D) (uname password : List ℕ)
      → SignsUp g uname password
      → let hash = g.registration.hash_sha_256 password in
        accepts (db.execute uname hash d) ≡ true
        → rows (serve s (attach db d g)).1 ≡ record { username = uname; password_hash = hash } ∷ []
  signed-rows s g d uname password l put = rw (serve-SignsUp s g d uname password l) (rw put refl)

  -- The directory after a first child that inserts one row.
  pub entry-first :
      (s : Server) (fd : ℕ) (g : Client) (later : List Accept) (d : D) (uname hash : List ℕ)
      → rows (serve s (attach db d g)).1 ≡ record { username = uname; password_hash = hash } ∷ []
      → entry uname (inserts (rounds s (in_turn db s (accepted fd g ∷ later) d)).1) ≡ some hash
  unfolding in_turn
  entry-first s fd g later d uname hash first =
      rw (rounds-children s (in_turn db s (accepted fd g ∷ later) d), first, same_refl uname) refl

  module _ (table : IsTable db) where
    -- The login server implements its directory, at the wire. Let the database be a table as SQL
    -- promises, on an open session, where a name of lower-case letters and digits has no row at
    -- first, and let the names that are inserted be such names. Then after any connections whose
    -- children spare the session (none returns from `main` or does what is undefined), taken in the
    -- order in which their children use the database, a client of that name that logs in on an open
    -- connection, where a random string is drawn that ends within its bytes, is told what the
    -- directory says: 1 if no row with the name was inserted; 0 and then 1 if the first one has
    -- another hash than the password; and otherwise 0, 0 and the hash of the random string.
    pub login_follows_directory :
        (s : Server) (as' : List Accept) (d : D) (c : Client) (uname password randstr : List ℕ)
        → IsPlain uname
        → db.throws (query uname) d ≡ false
        → db.execute_query (query uname) d ≡ none
        → LogsIn c uname password randstr
        → let served = (rounds s (in_turn db s as' d)).1 in
          AllSpare served
          → All HasPlainName (inserts served)
          → serve s (attach db (after db s as' d) c)
            ≡ reply s c password randstr (entry uname (inserts served))
    login_follows_directory s as' d c uname password randstr pu live empty l sp pv =
        serve-LogsIn s c (after db s as' d) uname password randstr l
          (rounds-answers db table s as' d uname pu sp live)
        ∙ ap (reply s c password randstr) (
            rounds_refine db table s as' d uname pu sp pv
            ∙ ap (λ o. or_else o (entry uname (inserts (rounds s (in_turn db s as' d)).1))) empty)

    -- The first sign-up of a name decides, for good. Let the database be a table as SQL promises,
    -- on an open session, with no row for a name of lower-case letters and digits, and let a client
    -- sign up with the name and a password on an open connection, and the database accept the row.
    -- Then whatever the clients of later connections send, these taken in the order in which their
    -- children use the database, if their children spare the session (none returns from `main` or
    -- does what is undefined) and the names that are inserted are of lower-case letters and digits,
    -- a client that logs in with the name and any password on an open connection, where a random
    -- string is drawn that ends within its bytes, is told 0, and then gets 0 and the hash of the
    -- random string if its password has the hash of the password of the sign-up, and 1 if not.
    pub first_sign_up_decides :
        (s : Server) (fd : ℕ) (g c : Client) (later : List Accept) (d : D)
        (uname password guess randstr : List ℕ)
        → IsPlain uname
        → db.throws (query uname) d ≡ false
        → db.execute_query (query uname) d ≡ none
        → SignsUp g uname password
        → let hash = g.registration.hash_sha_256 password in
          accepts (db.execute uname hash d) ≡ true
          → LogsIn c uname guess randstr
          → let as' = accepted fd g ∷ later in
            let served = (rounds s (in_turn db s as' d)).1 in
            AllSpare served
            → All HasPlainName (inserts served)
            → serve s (attach db (after db s as' d) c) ≡ reply s c guess randstr (some hash)
    first_sign_up_decides s fd g c later d uname password guess randstr pu live empty up put l sp
          pv =
        login_follows_directory s (accepted fd g ∷ later) d c uname guess randstr pu live empty l sp
          pv
        ∙ ap (reply s c guess randstr) (
            entry-first s fd g later d uname (g.registration.hash_sha_256 password)
              (signed-rows s g d uname password up put))
