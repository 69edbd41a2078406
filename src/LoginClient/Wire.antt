-- ===== src/LoginClient/Wire.antt =====
-- The wire between the login server and its client (LoginServer.cxx, client.cxx): what one side sends is
-- what the other receives, each short by one `recv` and each write by one read.
use inferno_game_server.Base.{ℕ, zero, suc, ◌≡◌, true, List, [], ◌∷◌, map, get_elem?}
use inferno_game_server.LoginServer.Handler
use inferno_game_server.LoginServer.Reads.{Read, got}
use inferno_game_server.LoginServer.Requests.{Client}
use inferno_game_server.LoginClient.{
  Action, sent_short, wrote_short, sent_bytes, wrote_bytes, connects, shows, cleaned_up, Session,
}

-- The shorts that the server sends in the clear, and the strings that it writes over SSL.
abbrev pub shorts : List Handler.Action → List ℕ
shorts [] = []
shorts (Handler.sent_short n ∷ log) = n ∷ shorts log
shorts (Handler.locked ∷ log) = shorts log
shorts (Handler.unlocked ∷ log) = shorts log
shorts (Handler.assigned n ∷ log) = shorts log
shorts (Handler.wrote s ∷ log) = shorts log
shorts (Handler.inserted u h ∷ log) = shorts log
shorts (Handler.cleaned_up ∷ log) = shorts log

abbrev pub strings : List Handler.Action → List (List ℕ)
strings [] = []
strings (Handler.wrote s ∷ log) = s ∷ strings log
strings (Handler.sent_short n ∷ log) = strings log
strings (Handler.locked ∷ log) = strings log
strings (Handler.unlocked ∷ log) = strings log
strings (Handler.assigned n ∷ log) = strings log
strings (Handler.inserted u h ∷ log) = strings log
strings (Handler.cleaned_up ∷ log) = strings log

-- The session of a client that receives what the server sends: each short by one `recv`, in order.
abbrev pub hears : List Handler.Action → Session → Session
hears log s = record s {
  recv_ack = get_elem? (shorts log) 0;
  recv_port = get_elem? (shorts log) 1;
  recv_lookup = get_elem? (shorts log) 2;
  recv_check = get_elem? (shorts log) 3;
  token_reads = map got (strings log);
}

-- The shorts and the bytes that the client writes over SSL.
abbrev pub written_shorts : List Action → List ℕ
written_shorts [] = []
written_shorts (wrote_short n ∷ log) = n ∷ written_shorts log
written_shorts (sent_short n ∷ log) = written_shorts log
written_shorts (sent_bytes bs ∷ log) = written_shorts log
written_shorts (wrote_bytes bs ∷ log) = written_shorts log
written_shorts (connects p ∷ log) = written_shorts log
written_shorts (shows bs ∷ log) = written_shorts log
written_shorts (cleaned_up ∷ log) = written_shorts log

abbrev pub written_bytes : List Action → List (List ℕ)
written_bytes [] = []
written_bytes (wrote_bytes bs ∷ log) = bs ∷ written_bytes log
written_bytes (wrote_short n ∷ log) = written_bytes log
written_bytes (sent_short n ∷ log) = written_bytes log
written_bytes (sent_bytes bs ∷ log) = written_bytes log
written_bytes (connects p ∷ log) = written_bytes log
written_bytes (shows bs ∷ log) = written_bytes log
written_bytes (cleaned_up ∷ log) = written_bytes log

abbrev pub sent_shorts : List Action → List ℕ
sent_shorts [] = []
sent_shorts (sent_short n ∷ log) = n ∷ sent_shorts log
sent_shorts (wrote_short n ∷ log) = sent_shorts log
sent_shorts (sent_bytes bs ∷ log) = sent_shorts log
sent_shorts (wrote_bytes bs ∷ log) = sent_shorts log
sent_shorts (connects p ∷ log) = sent_shorts log
sent_shorts (shows bs ∷ log) = sent_shorts log
sent_shorts (cleaned_up ∷ log) = sent_shorts log

abbrev pub reads_at : List (List ℕ) → ℕ → List Read
reads_at [] i = []
reads_at (bs ∷ more) zero = got bs ∷ []
reads_at (bs ∷ more) (suc i) = reads_at more i

abbrev pub length_at : List ℕ → ℕ → ℕ
length_at [] i = 0
length_at (n ∷ ns) zero = n
length_at (n ∷ ns) (suc i) = length_at ns i

-- The client that the server meets: each write comes by one read.
abbrev pub says : List Action → Client → Client
says log c = record {
  arrival = record { recv = get_elem? (sent_shorts log) 0; send_ack = c.arrival.send_ack };
  request = record c.request {
    name_len = length_at (written_shorts log) 0;
    name_reads = reads_at (written_bytes log) 0;
    pass_len = length_at (written_shorts log) 1;
    pass_reads = reads_at (written_bytes log) 1;
  };
  registration = c.registration;
}

-- Every call of the client succeeds.
pub record IsReady (s : Session) : Type 0 where
  pub library_init : s.tls.library_init ≡ true
  pub ctx_new : s.tls.ctx_new ≡ true
  pub set_cipher_list : s.tls.set_cipher_list ≡ true
  pub bio_new_connect : s.tls.bio_new_connect ≡ true
  pub bio_do_connect : s.tls.bio_do_connect ≡ true
  pub ssl_new : s.tls.ssl_new ≡ true
  pub ssl_connect : s.tls.ssl_connect ≡ true
  pub send_code : s.send_code ≡ true
  pub send_length : s.send_length ≡ true
  pub send_name : s.send_name ≡ true
