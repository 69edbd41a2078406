-- ===== src/LoginClient/EndToEnd.antt =====
-- From a sign-up to a login, with the client's program and the server's (client.cxx, LoginServer.cxx).
use inferno_game_server.Base.{
  ℕ, false, ◌+◌, ◌%◌, ◌≤◌, ◌<◌, ◌≡◌, refl, ap, sym, ◌∙◌, subst, true, List, [], ◌∷◌, ◌++◌, some,
  length,
}
use inferno_game_server.Base.Bytes.{same_refl, c_string}
use inferno_game_server.Base.Handlers.{Outcome, returned, fault, unterminated}
use inferno_game_server.LoginServer.Login.{query}
use inferno_game_server.LoginServer.Access.{IsOpen, answer}
use inferno_game_server.LoginServer.Accounts.{stored}
use inferno_game_server.LoginServer.Signup.{timeout}
use inferno_game_server.LoginServer.Requests.{Client, Server, exits, serve}
use inferno_game_server.LoginClient.{Action, shows, Session, login, signup}
use inferno_game_server.LoginClient.Text.{IsText}
use inferno_game_server.LoginClient.Wire.{hears, says, IsReady}
use inferno_game_server.LoginClient.Dialogue.{greeting, secret, dialogue, server_log}
use inferno_game_server.LoginClient.Exchange.{login_exchange}
use inferno_game_server.LoginClient.Enrolment.{
  enrolment, hears_signup, says_signup, signup_log, signup_exchange,
}

stored-signup_log :
    (port : ℕ) (username hash : List ℕ)
    → stored username (signup_log port username hash true) ≡ some hash
stored-signup_log port username hash = rw (same_refl username) refl

-- What the client of the right password does in a login.
abbrev pub admitted : List ℕ → List ℕ → ℕ → List ℕ → Outcome (Unit {0}) × List Action
admitted username password port token =
    (fault unterminated, greeting username port ++ secret password ++ shows token ∷ [])

dialogue-admitted :
    (username password : List ℕ) (port : ℕ) (hash token : List ℕ)
    → dialogue username password port hash token (some hash) ≡ admitted username password port token
dialogue-admitted username password port hash token = rw (same_refl hash) refl

-- A login with the right password, where the database has its hash.
pub login_with_row :
    (server : Server) (c : Client) (s : Session) (username password bytes randstr : List ℕ)
    → IsOpen c.request.connection
    → c.arrival.send_ack ≡ true
    → IsReady s
    → IsText username
    → length username < 16
    → IsText password
    → 0 < length password
    → length password < 64
    → c.request.query_throws (query username) ≡ false
    → c.request.random ≡ some bytes
    → c_string bytes ≡ some randstr
    → length (c.request.hash_sha_256 randstr) ≡ 64
    → IsText (c.request.hash_sha_256 randstr)
    → c.request.execute_query (query username) ≡ some (c.request.hash_sha_256 password)
    → let token = c.request.hash_sha_256 randstr in
      let said = admitted username password (server.next_login_port % 65536) token in
      login username password (hears (serve server (says said.1 c)).1 s) [] ≡ said
login_with_row server c s username password bytes randstr o a r nt fits pt sp pf answered drawn ends
      n t row =
    let port = server.next_login_port in
    let hash = c.request.hash_sha_256 password in
    let token = c.request.hash_sha_256 randstr in
    let logged =
      subst
        (λ q.
          let told = server_log port (answer hash token q).1 in
          let said = dialogue username password (port % 65536) hash token q in
          (serve server (says said.1 c) ≡ (exits, told))
          × (login username password (hears told s) [] ≡ said))
        row
        (login_exchange server c s username password bytes randstr o a r nt fits pt sp pf answered
          drawn ends n t) in
    subst
      (λ (said : Outcome (Unit {0}) × List Action).
        login username password (hears (serve server (says said.1 c)).1 s) [] ≡ said)
      (dialogue-admitted username password (port % 65536) hash token)
      (ap (λ q. login username password (hears q.1 s) []) logged.0 ∙ logged.1)

-- A user who signs up with the client can log in with it, and is given the token. Let the calls of both
-- sides succeed in both sessions, the name be a text of less than 16 characters that arrives before the
-- timeout and the password one of 1 to 63, the row be inserted, both sessions hash the password to the
-- same, the random string be drawn and end within its bytes, its hash be a text of 64 characters, and the
-- database answer the query for the name, by what the server's log of the sign-up says was inserted. Then
-- the sign-up returns true at the client, and in the login, where each side says what the other hears, the
-- client prints the token that the server's hash made of the random string, from an array that no NUL
-- ends.
pub enrolled_client_gets_token :
    (server server' : Server) (c c' : Client) (s s' : Session)
    (username password bytes randstr : List ℕ) (t1 : ℕ)
    → IsOpen c.registration.connection
    → c.arrival.send_ack ≡ true
    → IsReady s
    → IsText username
    → length username < 16
    → IsText password
    → 0 < length password
    → length password < 64
    → t1 ≤ c.registration.t0 + timeout
    → c.registration.execute username (c.registration.hash_sha_256 password) ≡ true
    → IsOpen c'.request.connection
    → c'.arrival.send_ack ≡ true
    → IsReady s'
    → c'.request.query_throws (query username) ≡ false
    → c'.request.random ≡ some bytes
    → c_string bytes ≡ some randstr
    → length (c'.request.hash_sha_256 randstr) ≡ 64
    → IsText (c'.request.hash_sha_256 randstr)
    → c'.request.hash_sha_256 password ≡ c.registration.hash_sha_256 password
    → let applied = enrolment username password (server.next_registration_port % 65536) true in
      let served = serve server (says_signup t1 applied.1 c) in
      c'.request.execute_query (query username) ≡ stored username served.1
      → let token = c'.request.hash_sha_256 randstr in
        let said = admitted username password (server'.next_login_port % 65536) token in
        ((signup username password (hears_signup served.1 s) []).0 ≡ returned true)
        × (login username password (hears (serve server' (says said.1 c')).1 s') [] ≡ said)
enrolled_client_gets_token server server' c c' s s' username password bytes randstr t1 o a r nt fits
      pt sp pf e put o' a' r' answered drawn ends n t hashed db =
    let port = server.next_registration_port in
    let hash = c.registration.hash_sha_256 password in
    let hash' = c'.request.hash_sha_256 password in
    let signed =
      subst
        (λ b.
          (serve server (says_signup t1 (enrolment username password (port % 65536) b).1 c)
            ≡ (exits, signup_log port username hash b))
          × (signup username password (hears_signup (signup_log port username hash b) s) []
              ≡ enrolment username password (port % 65536) b))
        put (signup_exchange server c s username password t1 o a r nt fits pt sp pf e) in
    let row : c'.request.execute_query (query username) ≡ some hash' =
      db
      ∙ (ap (λ q. stored username q.1) signed.0
          ∙ (stored-signup_log port username hash ∙ ap some (sym hashed))) in
    (
      ap (λ q. (signup username password (hears_signup q.1 s) []).0) signed.0
          ∙ ap (λ q. q.0) signed.1,
      login_with_row server' c' s' username password bytes randstr o' a' r' nt fits pt sp pf
          answered drawn ends n t row,
    )
