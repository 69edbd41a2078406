-- ===== src/LoginClient/Dialogue.antt =====
-- A login from the client's side (client.cxx): what it does when it hears the answers of the server.
use mathlib.Core.List.{append_assoc}
use inferno_game_server.Base.{
  ℕ, ◌%◌, ◌<◌, ◌≡◌, refl, ap, ◌∙◌, false, List, [], ◌∷◌, ◌++◌, Option, none, some, length, inl, inr,
  Bool-cases, lt→ltb, if◌then◌else◌,
}
use inferno_game_server.Base.Bytes.{same}
use inferno_game_server.Base.Handlers.{Outcome, returned, fault, unterminated}
use inferno_game_server.LoginServer.Handler
use inferno_game_server.LoginServer.Reads.{got}
use inferno_game_server.LoginServer.Access.{opening, answer}
use inferno_game_server.LoginClient.{
  Action, sent_short, wrote_short, wrote_bytes, connects, shows, Session, ssl_initialize,
  fetch_ssl_context, connect_ssl, print_name, show_token, prove_password, login,
}
use inferno_game_server.LoginClient.Wire.{hears, IsReady}
use inferno_game_server.LoginClient.Text.{IsText, padded, c_string_unended, read_token}

IsReady-hears : (log : List Handler.Action) (s : Session) → IsReady s → IsReady (hears log s)
IsReady-hears log s r = record {
  library_init = r.library_init;
  ctx_new = r.ctx_new;
  set_cipher_list = r.set_cipher_list;
  bio_new_connect = r.bio_new_connect;
  bio_do_connect = r.bio_do_connect;
  ssl_new = r.ssl_new;
  ssl_connect = r.ssl_connect;
  send_code = r.send_code;
  send_length = r.send_length;
  send_name = r.send_name;
}

abbrev pub greeting : List ℕ → ℕ → List Action
greeting username port =
    sent_short 0
    ∷ connects port
    ∷ wrote_short (length username % 65536)
    ∷ wrote_bytes (padded username)
    ∷ []

abbrev pub secret : List ℕ → List Action
secret password = wrote_short (length password % 65536) ∷ wrote_bytes password ∷ []

-- How a login goes for the client: the hash of its password, the token, and the hash that the database has
-- for its name.
abbrev pub dialogue :
    List ℕ → List ℕ → ℕ → List ℕ → List ℕ → Option (List ℕ) → Outcome (Unit {0}) × List Action
dialogue username password port hash token none = (returned false, greeting username port)
dialogue username password port hash token (some stored_hash) =
    if same hash stored_hash
    then (fault unterminated, greeting username port ++ secret password ++ shows token ∷ [])
    else (returned false, greeting username port ++ secret password)

-- The client up to the answer to its name.
login-prove_password :
    (username password : List ℕ) (s : Session) (ack port : ℕ)
    → IsReady s
    → length username < 16
    → s.recv_ack ≡ some ack
    → s.recv_port ≡ some port
    → login username password s [] ≡ prove_password password s (greeting username port)
unfolding login connect_ssl ssl_initialize fetch_ssl_context print_name
login-prove_password username password s ack port ready fits a p = rw (
  ready.send_code,
  a,
  p,
  ready.library_init,
  ready.ctx_new,
  ready.set_cipher_list,
  ready.bio_new_connect,
  ready.bio_do_connect,
  ready.ssl_new,
  ready.ssl_connect,
  ready.send_length,
  lt→ltb (length username) 16 fits,
  ready.send_name,
)

-- ... and from it on: told 1, told 0 and then 1, and told 0 twice and given a token.
module _ (password : List ℕ) (s : Session) (log : List Action) where
  refused_name : s.recv_lookup ≡ some 1 → prove_password password s log ≡ (returned false, log)
  unfolding prove_password
  refused_name l = rw l

  refused_password :
      s.recv_lookup ≡ some 0
      → s.recv_check ≡ some 1
      → prove_password password s log ≡ (returned false, log ++ secret password)
  unfolding prove_password
  refused_password l k = rw (l, k) (ap (λ m. (returned false, m)) (append_assoc log _ _))

  given_token :
      (token : List ℕ)
      → s.recv_lookup ≡ some 0
      → s.recv_check ≡ some 0
      → s.token_reads ≡ got token ∷ []
      → length token ≡ 64
      → IsText token
      → prove_password password s log
        ≡ (fault unterminated, log ++ secret password ++ shows token ∷ [])
  unfolding prove_password show_token
  given_token token l k t n h =
      rw (l, k, t)
        (rw (read_token token n) (
          rw (c_string_unended token h)
            (ap (λ m. (fault unterminated, m ++ shows token ∷ [])) (append_assoc log _ _))))

-- What the server sends in a login, the acknowledgement of the request first.
abbrev pub server_log : ℕ → List Handler.Action → List Handler.Action
server_log port told = Handler.sent_short 1 ∷ (opening port ++ told)

-- The client's side of a login.
module _ (username password : List ℕ) (s : Session) (port : ℕ) (ready : IsReady s)
    (fits : length username < 16) where
  greeted :
      (told : List Handler.Action)
      → let s' = hears (server_log port told) s in
        login username password s' []
        ≡ prove_password password s' (greeting username (port % 65536))
  greeted told =
      login-prove_password username password (hears (server_log port told) s) 1 (port % 65536)
        (IsReady-hears (server_log port told) s ready) fits refl refl

  pub login-dialogue :
      (hash token : List ℕ) (row : Option (List ℕ))
      → length token ≡ 64
      → IsText token
      → login username password (hears (server_log port (answer hash token row).1) s) []
        ≡ dialogue username password (port % 65536) hash token row
  login-dialogue hash token none n h =
      greeted (Handler.sent_short 1 ∷ [])
      ∙ refused_name password _ (greeting username (port % 65536)) refl
  login-dialogue hash token (some stored) n h = elim (Bool-cases (same hash stored)) [
    | inl e ↦ rw e (
        greeted (
          Handler.sent_short 0
          ∷ Handler.sent_short 0
          ∷ Handler.wrote token
          ∷ Handler.cleaned_up
          ∷ [])
        ∙ given_token password _ (greeting username (port % 65536)) token refl refl refl n h)
    | inr e ↦ rw e (
        greeted (Handler.sent_short 0 ∷ Handler.sent_short 1 ∷ [])
        ∙ refused_password password _ (greeting username (port % 65536)) refl refl)
  ]
