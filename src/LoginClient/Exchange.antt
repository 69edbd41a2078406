-- ===== src/LoginClient/Exchange.antt =====
-- A login, from both sides (client.cxx and LoginServer.cxx): what the client sends is what the server
-- receives, and what the server sends is what the client receives.
use inferno_game_server.Base.{
  ℕ, ◌%◌, ◌<◌, ◌≡◌, refl, ap, ◌∙◌, Bool, true, false, List, [], ◌∷◌, ◌++◌, Option, none, some,
  length, replicate, inl, inr, Bool-cases, if◌then◌else◌,
}
use inferno_game_server.Base.Int.{pos}
use inferno_game_server.Base.Bytes.{same, c_string}
use inferno_game_server.Base.Handlers.{Outcome, returned, fault, unterminated}
use inferno_game_server.LoginServer.Handler
use inferno_game_server.LoginServer.Reads.{signed16, read_password}
use inferno_game_server.LoginServer.Login.{query, login_user}
use inferno_game_server.LoginServer.Access.{IsOpen, received, opening, answer, login_user_branches}
use inferno_game_server.LoginServer.Writers.{login_user-IsWriter}
use inferno_game_server.LoginServer.Requests.{Client, Server, exits, get_request_type, ended, serve}
use inferno_game_server.LoginClient.{Action, shows, Session, login}
use inferno_game_server.LoginClient.Wire.{hears, says, IsReady}
use inferno_game_server.LoginClient.Text.{IsText, padded_name_arrives, received_whole}
use inferno_game_server.LoginClient.Dialogue.{
  greeting, secret, dialogue, server_log, login-dialogue,
}

serve_login :
    (server : Server) (c : Client)
    → c.arrival.recv ≡ some 0
    → c.arrival.send_ack ≡ true
    → serve server c
      ≡ ended (
        (login_user c.request server.next_login_port []).0,
        Handler.sent_short 1 ∷ (login_user c.request server.next_login_port []).1,
      )
unfolding serve get_request_type
serve_login server c e f =
    rw (e, f)
      (ap ended
        ((login_user-IsWriter c.request server.next_login_port).adds (Handler.sent_short 1 ∷ [])))

no_password : received (read_password (signed16 0) (pos 0) (replicate 64 0) []) ≡ some []
unfolding read_password c_string
no_password = refl

-- The server's side: the request that the client's messages make.
module _ (username password : List ℕ) (c : Client) (port : ℕ) (bytes randstr : List ℕ)
    (opened : IsOpen c.request.connection) (name_text : IsText username)
    (fits : length username < 16) (pass_text : IsText password) (some_pass : 0 < length password)
    (pass_fits : length password < 64) (drawn : c.request.random ≡ some bytes)
    (ends : c_string bytes ≡ some randstr) where
  -- What the server is told, whether the password is right or wrong.
  says_found :
      (right : Bool) (token : List ℕ)
      → let log = greeting username (port % 65536) ++ secret password in
        let said : Outcome (Unit {0}) × List Action =
          if right then (fault unterminated, log ++ shows token ∷ []) else (returned false, log) in
        says said.1 c ≡ says log c
  says_found true token = refl
  says_found false token = refl

  login_user-dialogue :
      (row : Option (List ℕ))
      → c.request.execute_query (query username) ≡ row
      → c.request.query_throws (query username) ≡ false
      → let hash = c.request.hash_sha_256 password in
        let token = c.request.hash_sha_256 randstr in
        let told = answer hash token row in
        login_user
          (says (dialogue username password (port % 65536) hash token row).1 c).request
          port
          []
        ≡ (returned told.0, opening port ++ told.1)
  login_user-dialogue none e answered =
      let r = (says (greeting username (port % 65536)) c).request in
      login_user_branches r port username [] bytes randstr opened
        (padded_name_arrives username name_text fits) no_password answered drawn ends
      ∙ ap
          (λ row.
            let told = answer (c.request.hash_sha_256 []) (c.request.hash_sha_256 randstr) row in
            (returned told.0, opening port ++ told.1))
          e
  login_user-dialogue (some stored) e answered =
      let hash = c.request.hash_sha_256 password in
      let token = c.request.hash_sha_256 randstr in
      let r = (says (greeting username (port % 65536) ++ secret password) c).request in
      ap (λ (c' : Client). login_user c'.request port []) (says_found (same hash stored) token)
      ∙ (login_user_branches r port username password bytes randstr opened
            (padded_name_arrives username name_text fits)
            (received_whole password pass_text some_pass pass_fits) answered drawn ends
          ∙ ap
              (λ row. let told = answer hash token row in (returned told.0, opening port ++ told.1))
              e)

dialogue-code :
    (username password : List ℕ) (port : ℕ) (hash token : List ℕ) (row : Option (List ℕ))
    (c : Client)
    → (says (dialogue username password port hash token row).1 c).arrival.recv ≡ some 0
dialogue-code username password port hash token none c = refl
dialogue-code username password port hash token (some stored) c =
    elim (Bool-cases (same hash stored)) [ inl e ↦ rw e refl | inr e ↦ rw e refl ]

-- A login as the two programs carry it out together. Let both sides' calls succeed, the name be a
-- text of less than 16 characters and the password one of 1 to 63, the query be answered, the
-- random string be drawn and end within its bytes, and its hash be a text of 64 characters. Then
-- the client that hears what the server sends says what `dialogue` says, and the server that is
-- told this serves it so that it sends just that: a client of an unknown name is refused after its
-- name, one of a wrong password after its password, and one of the right password gets the token,
-- as the server wrote it, and prints an array that no NUL ends.
pub login_exchange :
    (server : Server) (c : Client) (s : Session) (username password bytes randstr : List ℕ)
    → IsOpen c.request.connection
    → c.arrival.send_ack ≡ true
    → IsReady s
    → IsText username
    → length username < 16
    → IsText password
    → 0 < length password
    → length password < 64
    → c.request.query_throws (query username) ≡ false
    → c.request.random ≡ some bytes
    → c_string bytes ≡ some randstr
    → length (c.request.hash_sha_256 randstr) ≡ 64
    → IsText (c.request.hash_sha_256 randstr)
    → let port = server.next_login_port in
      let hash = c.request.hash_sha_256 password in
      let token = c.request.hash_sha_256 randstr in
      let row = c.request.execute_query (query username) in
      let sent = server_log port (answer hash token row).1 in
      let said = dialogue username password (port % 65536) hash token row in
      (serve server (says said.1 c) ≡ (exits, sent))
      × (login username password (hears sent s) [] ≡ said)
login_exchange server c s username password bytes randstr opened ack ready nt fits pt sp pf answered
      drawn ends n t =
    let port = server.next_login_port in
    let hash = c.request.hash_sha_256 password in
    let token = c.request.hash_sha_256 randstr in
    let row = c.request.execute_query (query username) in
    let c' = says (dialogue username password (port % 65536) hash token row).1 c in
    (
      serve_login server c' (dialogue-code username password (port % 65536) hash token row c) ack
          ∙ ap (λ r. ended (r.0, Handler.sent_short 1 ∷ r.1))
              (login_user-dialogue username password c port bytes randstr opened nt fits pt sp pf
                drawn ends row refl answered),
      login-dialogue username password s port ready fits hash token row n t,
    )
