-- ===== src/LoginClient/Returning.antt =====
-- A user comes back: sign-up and login with the client's program, with the server's children and its
-- database between them (client.cxx, LoginServer.cxx).
use inferno_game_server.Base.{
  ℕ, ◌+◌, ◌%◌, false, ◌≤◌, ◌<◌, ◌≡◌, ap, sym, ◌∙◌, subst, true, List, [], ◌∷◌, none, some, All,
  length,
}
use inferno_game_server.Base.Bytes.{c_string}
use inferno_game_server.Base.Handlers.{returned}
use inferno_game_server.LoginServer.Login.{query}
use inferno_game_server.LoginServer.Access.{IsOpen}
use inferno_game_server.LoginServer.Signup.{timeout}
use inferno_game_server.LoginServer.Requests.{
  Client, Server, Accept, accepted, exits, serve, rounds,
}
use inferno_game_server.LoginServer.Inserts.{rows}
use inferno_game_server.LoginServer.Database.{
  Database, IsPlain, IsTable, attach, in_turn, after, accepts,
}
use inferno_game_server.LoginServer.Directory.{
  entry, or_else, HasPlainName, AllSpare, inserts, rounds-answers, rounds_refine,
}
use inferno_game_server.LoginServer.Lives.{entry-first}
use inferno_game_server.LoginClient.{Session, login, signup}
use inferno_game_server.LoginClient.Text.{IsText}
use inferno_game_server.LoginClient.Wire.{hears, says, IsReady}
use inferno_game_server.LoginClient.Enrolment.{
  enrolment, hears_signup, says_signup, signup_log, signup_exchange,
}
use inferno_game_server.LoginClient.EndToEnd.{admitted, login_with_row}

-- A name and a password that the client's program can send.
pub record IsCredential (username password : List ℕ) : Type 0 where
  pub name_text : IsText username
  pub name_fits : length username < 16
  pub password_text : IsText password
  pub password_starts : 0 < length password
  pub password_fits : length password < 64

-- Both sides' calls succeed in a sign-up, and the name comes before the timeout.
pub record Enrols (c : Client) (session : Session) (t1 : ℕ) : Type 0 where
  pub opens : IsOpen c.registration.connection
  pub acks : c.arrival.send_ack ≡ true
  pub ready : IsReady session
  pub in_time : t1 ≤ c.registration.t0 + timeout

-- Both sides' calls succeed in a login, and the hash of a random string is a text of 64 characters.
pub record Returns (c : Client) (session : Session) (randstr : List ℕ) : Type 0 where
  pub opens : IsOpen c.request.connection
  pub acks : c.arrival.send_ack ≡ true
  pub ready : IsReady session
  pub bytes : List ℕ
  pub drawn : c.request.random ≡ some bytes
  pub ends : c_string bytes ≡ some randstr
  pub token_length : length (c.request.hash_sha_256 randstr) ≡ 64
  pub token_text : IsText (c.request.hash_sha_256 randstr)

module _ {D : Type 0} (db : Database D) (server : Server) (username password : List ℕ) where
  -- The client of the server that is told what the program says in a sign-up.
  abbrev pub enrolling : ℕ → Client → Client
  enrolling t1 c =
      says_signup t1 (enrolment username password (server.next_registration_port % 65536) true).1 c

  enrolled_log :
      (c : Client) (session : Session) (t1 : ℕ) (d : D)
      → IsCredential username password
      → Enrols c session t1
      → let hash = c.registration.hash_sha_256 password in
        accepts (db.execute username hash d) ≡ true
        → let port = server.next_registration_port in
          (serve server (attach db d (enrolling t1 c))
            ≡ (exits, signup_log port username hash true))
          × (signup username password (hears_signup (signup_log port username hash true) session) []
              ≡ enrolment username password (port % 65536) true)
  enrolled_log c session t1 d k e put =
      let port = server.next_registration_port in
      let hash = c.registration.hash_sha_256 password in
      subst
        (λ b.
          (serve server
              (says_signup t1 (enrolment username password (port % 65536) b).1 (attach db d c))
            ≡ (exits, signup_log port username hash b))
          × (signup username password (hears_signup (signup_log port username hash b) session) []
              ≡ enrolment username password (port % 65536) b))
        put
        (signup_exchange server (attach db d c) session username password t1 e.opens e.acks e.ready
          k.name_text k.name_fits k.password_text k.password_starts k.password_fits e.in_time)

  -- The children and the database after a first sign-up, and later connections.
  module _ (fd : ℕ) (later : List Accept) (d : D) (t1 : ℕ) (c : Client) where
    abbrev pub connections : List Accept
    connections = accepted fd (enrolling t1 c) ∷ later

    abbrev pub database : D
    database = after db server connections d

    -- The row of the name is still what the sign-up inserted.
    row_stays :
        (session : Session)
        → IsTable db
        → IsPlain username
        → db.execute_query (query username) d ≡ none
        → IsCredential username password
        → Enrols c session t1
        → let hash = c.registration.hash_sha_256 password in
          accepts (db.execute username hash d) ≡ true
          → AllSpare (rounds server (in_turn db server connections d)).1
          → All HasPlainName (inserts (rounds server (in_turn db server connections d)).1)
          → db.execute_query (query username) database ≡ some hash
    row_stays session table plain empty k e put sp names =
        let hash = c.registration.hash_sha_256 password in
        let first = ap (λ q. rows q.1) (enrolled_log c session t1 d k e put).0 in
        rounds_refine db table server connections d username plain sp names
        ∙ (ap
              (λ o.
                or_else o
                  (entry username (inserts (rounds server (in_turn db server connections d)).1)))
              empty
            ∙ entry-first db server fd (enrolling t1 c) later d username hash first)

    -- Who has signed up with the client's program gets in with it, whatever came between. Let the
    -- database be a table as SQL promises, on an open session, without a row for a name of
    -- lower-case letters and digits that the program can send, as it can the password, and let the
    -- calls of both sides succeed in the sign-up, whose name comes in time and whose row the
    -- database accepts. Then the sign-up returns true at the client; and after whatever later
    -- connections, taken in the order in which their children use the database, whose children
    -- spare the session (none returns from `main` or does what is undefined) and insert such names
    -- only, if the calls of both sides succeed in a login with the same name and password, both
    -- sessions hash the password alike, and the hash of the random string is a text of 64
    -- characters, the client prints that hash.
    pub returning_client_gets_token :
        (c' : Client) (session session' : Session) (randstr : List ℕ)
        → IsTable db
        → IsPlain username
        → db.throws (query username) d ≡ false
        → db.execute_query (query username) d ≡ none
        → IsCredential username password
        → Enrols c session t1
        → accepts (db.execute username (c.registration.hash_sha_256 password) d) ≡ true
        → AllSpare (rounds server (in_turn db server connections d)).1
        → All HasPlainName (inserts (rounds server (in_turn db server connections d)).1)
        → Returns c' session' randstr
        → c'.request.hash_sha_256 password ≡ c.registration.hash_sha_256 password
        → let served = serve server (attach db d (enrolling t1 c)) in
          let token = c'.request.hash_sha_256 randstr in
          let said = admitted username password (server.next_login_port % 65536) token in
          ((signup username password (hears_signup served.1 session) []).0 ≡ returned true)
          × (login username password
                (hears (serve server (attach db database (says said.1 c'))).1 session')
                []
              ≡ said)
    returning_client_gets_token c' session session' randstr table plain live empty k e put sp names
          r hashed =
        let signed = enrolled_log c session t1 d k e put in
        let row : db.execute_query (query username) database
            ≡ some (c'.request.hash_sha_256 password) =
          row_stays session table plain empty k e put sp names ∙ ap some (sym hashed) in
        (
          ap (λ q. (signup username password (hears_signup q.1 session) []).0) signed.0
              ∙ ap (λ q. q.0) signed.1,
          login_with_row server (attach db database c') session' username password r.bytes randstr
              r.opens r.acks r.ready k.name_text k.name_fits k.password_text k.password_starts
              k.password_fits (rounds-answers db table server connections d username plain sp live)
              r.drawn r.ends r.token_length r.token_text row,
        )
