-- ===== src/LoginClient/Enrolment.antt =====
-- A sign-up, from both sides (client.cxx and LoginServer.cxx).
use inferno_game_server.Base.{
  ℕ, ◌+◌, ◌%◌, ◌≤◌, ◌<◌, ◌≡◌, refl, ap, ◌∙◌, Bool, true, false, List, [], ◌∷◌, ◌++◌, some,
  get_elem?, length, inl, inr, Bool-cases, ◌==◌, lt→ltb, if◌then◌else◌,
}
use inferno_game_server.Base.Handlers.{Outcome, returned}
use inferno_game_server.LoginServer.Handler
use inferno_game_server.LoginServer.Reads.{got}
use inferno_game_server.LoginServer.Access.{IsOpen, opening}
use inferno_game_server.LoginServer.Signup.{Timed, timeout, signup_user}
use inferno_game_server.LoginServer.Accounts.{IsReceived, enrolled, signup_user_branches}
use inferno_game_server.LoginServer.Writers.{signup_user-IsWriter}
use inferno_game_server.LoginServer.Requests.{Client, Server, exits, get_request_type, ended, serve}
use inferno_game_server.LoginClient.{
  Action, sent_short, wrote_short, sent_bytes, wrote_bytes, connects, shows, cleaned_up, Session,
  ssl_initialize, fetch_ssl_context, connect_ssl, print_name, signup,
}
use inferno_game_server.LoginClient.Wire.{
  shorts, sent_shorts, written_shorts, written_bytes, length_at, reads_at, IsReady,
}
use inferno_game_server.LoginClient.Text.{IsText, padded, c_string-padded_name, received_whole}
use inferno_game_server.LoginClient.Arrivals.{name_arrives}

-- The bytes that the client sends in the clear.
abbrev pub sent_names : List Action → List (List ℕ)
sent_names [] = []
sent_names (sent_bytes bs ∷ log) = bs ∷ sent_names log
sent_names (sent_short n ∷ log) = sent_names log
sent_names (wrote_short n ∷ log) = sent_names log
sent_names (wrote_bytes bs ∷ log) = sent_names log
sent_names (connects p ∷ log) = sent_names log
sent_names (shows bs ∷ log) = sent_names log
sent_names (cleaned_up ∷ log) = sent_names log

abbrev pub timed_at : List (List ℕ) → ℕ → List Timed
timed_at [] t1 = []
timed_at (bs ∷ more) t1 = record { read = got bs; t1 = t1 } ∷ []

-- The session of a client that receives what the server sends in a sign-up.
abbrev pub hears_signup : List Handler.Action → Session → Session
hears_signup log s = record s {
  recv_ack = get_elem? (shorts log) 0;
  recv_port = get_elem? (shorts log) 1;
  recv_check = get_elem? (shorts log) 2;
}

IsReady-hears_signup :
    (log : List Handler.Action) (s : Session) → IsReady s → IsReady (hears_signup log s)
IsReady-hears_signup log s r = record {
  library_init = r.library_init;
  ctx_new = r.ctx_new;
  set_cipher_list = r.set_cipher_list;
  bio_new_connect = r.bio_new_connect;
  bio_do_connect = r.bio_do_connect;
  ssl_new = r.ssl_new;
  ssl_connect = r.ssl_connect;
  send_code = r.send_code;
  send_length = r.send_length;
  send_name = r.send_name;
}

-- The client that the server meets; the name comes at the time `t1`.
abbrev pub says_signup : ℕ → List Action → Client → Client
says_signup t1 log c = record {
  arrival = record { recv = get_elem? (sent_shorts log) 0; send_ack = c.arrival.send_ack };
  request = c.request;
  registration = record c.registration {
    name_len = length_at (sent_shorts log) 1;
    name_reads = timed_at (sent_names log) t1;
    pass_len = length_at (written_shorts log) 0;
    pass_reads = reads_at (written_bytes log) 0;
  };
}

abbrev pub application : List ℕ → List ℕ → ℕ → List Action
application username password port =
    sent_short 1
    ∷ sent_short (length username % 65536)
    ∷ sent_bytes (padded username)
    ∷ connects port
    ∷ wrote_short (length password % 65536)
    ∷ wrote_bytes password
    ∷ []

-- How a sign-up goes for the client: whether its row was inserted.
abbrev pub enrolment : List ℕ → List ℕ → ℕ → Bool → Outcome (Unit {0}) × List Action
enrolment username password port true =
    (returned true, application username password port ++ cleaned_up ∷ [])
enrolment username password port false = (returned false, application username password port)

-- The client's run, given what it is told first and what it is told last.
signup_told :
    (username password : List ℕ) (s : Session) (ack port code : ℕ)
    → IsReady s
    → length username < 16
    → s.recv_ack ≡ some ack
    → s.recv_port ≡ some port
    → s.recv_check ≡ some code
    → signup username password s [] ≡ (
        if code == 0
        then (returned true, application username password port ++ cleaned_up ∷ [])
        else (returned false, application username password port))
unfolding signup connect_ssl ssl_initialize fetch_ssl_context print_name
signup_told username password s ack port code ready fits a p k =
    rw
      (
        ready.send_code,
        ready.send_length,
        lt→ltb (length username) 16 fits,
        ready.send_name,
        a,
        p,
        ready.library_init,
        ready.ctx_new,
        ready.set_cipher_list,
        ready.bio_new_connect,
        ready.bio_do_connect,
        ready.ssl_new,
        ready.ssl_connect,
        k,
      )
      (elim (Bool-cases (code == 0)) [ inl e ↦ rw e refl | inr e ↦ rw e refl ])

-- What the server sends in a sign-up, the acknowledgement of the request first.
abbrev pub signup_log : ℕ → List ℕ → List ℕ → Bool → List Handler.Action
signup_log port username hash put =
    Handler.sent_short 1 ∷ (opening port ++ Handler.cleaned_up ∷ enrolled username hash put)

-- The client's side of a sign-up.
pub signup-enrolment :
    (username password : List ℕ) (s : Session) (port : ℕ) (hash : List ℕ) (put : Bool)
    → IsReady s
    → length username < 16
    → signup username password (hears_signup (signup_log port username hash put) s) []
      ≡ enrolment username password (port % 65536) put
signup-enrolment username password s port hash true r fits =
    let log = signup_log port username hash true in
    signup_told username password (hears_signup log s) 1 (port % 65536) 0
      (IsReady-hears_signup log s r) fits refl refl refl
signup-enrolment username password s port hash false r fits =
    let log = signup_log port username hash false in
    signup_told username password (hears_signup log s) 1 (port % 65536) 1
      (IsReady-hears_signup log s r) fits refl refl refl

-- The server's side.
says_signup-IsReceived :
    (username password : List ℕ) (port t1 : ℕ) (put : Bool) (c : Client)
    → IsText username
    → length username < 16
    → IsText password
    → 0 < length password
    → length password < 64
    → t1 ≤ c.registration.t0 + timeout
    → IsReceived
        (says_signup t1 (enrolment username password port put).1 c).registration
        username
        password
says_signup-IsReceived username password port t1 true c nt fits pt sp pf e = record {
  name_buffer = padded username;
  name_came = name_arrives username c.registration.t0 t1 fits e;
  name_ends = c_string-padded_name username nt fits;
  password_came = received_whole password pt sp pf;
}
says_signup-IsReceived username password port t1 false c nt fits pt sp pf e = record {
  name_buffer = padded username;
  name_came = name_arrives username c.registration.t0 t1 fits e;
  name_ends = c_string-padded_name username nt fits;
  password_came = received_whole password pt sp pf;
}

enrolment-code :
    (username password : List ℕ) (port t1 : ℕ) (put : Bool) (c : Client)
    → (says_signup t1 (enrolment username password port put).1 c).arrival.recv ≡ some 1
enrolment-code username password port t1 true c = refl
enrolment-code username password port t1 false c = refl

serve_signup :
    (server : Server) (c : Client)
    → c.arrival.recv ≡ some 1
    → c.arrival.send_ack ≡ true
    → let signed = signup_user c.registration server.next_registration_port [] in
      serve server c ≡ ended (signed.0, Handler.sent_short 1 ∷ signed.1)
unfolding serve get_request_type
serve_signup server c e f =
    rw (e, f)
      (ap ended (
        (signup_user-IsWriter c.registration server.next_registration_port).adds
          (Handler.sent_short 1 ∷ [])))

-- A sign-up as the two programs carry it out together. Let both sides' calls succeed, the name be a text of
-- less than 16 characters that arrives before the timeout, and the password a text of 1 to 63 characters.
-- Then the server that is told what the client says sends what the client hears: the client is told 0, and
-- returns true, exactly if the row of its name and its password's hash was inserted.
pub signup_exchange :
    (server : Server) (c : Client) (s : Session) (username password : List ℕ) (t1 : ℕ)
    → IsOpen c.registration.connection
    → c.arrival.send_ack ≡ true
    → IsReady s
    → IsText username
    → length username < 16
    → IsText password
    → 0 < length password
    → length password < 64
    → t1 ≤ c.registration.t0 + timeout
    → let port = server.next_registration_port in
      let hash = c.registration.hash_sha_256 password in
      let put = c.registration.execute username hash in
      let sent = signup_log port username hash put in
      let said = enrolment username password (port % 65536) put in
      (serve server (says_signup t1 said.1 c) ≡ (exits, sent))
      × (signup username password (hears_signup sent s) [] ≡ said)
signup_exchange server c s username password t1 opened ack ready nt fits pt sp pf e =
    let port = server.next_registration_port in
    let hash = c.registration.hash_sha_256 password in
    let put = c.registration.execute username hash in
    let c' = says_signup t1 (enrolment username password (port % 65536) put).1 c in
    (
      serve_signup server c' (enrolment-code username password (port % 65536) t1 put c) ack
          ∙ ap (λ r. ended (r.0, Handler.sent_short 1 ∷ r.1))
              (signup_user_branches c'.registration port username password opened (
                says_signup-IsReceived username password (port % 65536) t1 put c nt fits pt sp pf
                  e)),
      signup-enrolment username password s port hash put ready fits,
    )
