-- ===== src/MatchMaker.antt =====
-- Linear/MatchMaker.cxx (GameServer/MatchMaker/MatchMaker.cxx is an older copy): the match maker
-- keeps a table of logged-in users of its own, by the same code as the chat server. Its constructor
-- does not allocate the map and the deque, so that the two pointers are indeterminate: `none`, and
-- undefined where the code follows them.
use inferno_game_server.Base.{
  ℕ, ◌+◌, ◌*◌, ◌≡◌, refl, ap, Bool, true, false, List, [], ◌∷◌, ◌++◌, Option, none, some, Result,
  ok, err, ◌>>=◌, or_err, ltb, take, drop, if◌then◌else◌,
}
use inferno_game_server.Base.Bytes.{strlen, clear, c_string, overlay}
use inferno_game_server.ServerUtils.{Address, setup_udp_server_connection}
use inferno_game_server.TokenTable
use inferno_game_server.TokenTable.{
  Halt, undefined, waits, User, Expiry, Table, Timeval, Datagram, erase, insert, micros, admit,
  last_recvfrom,
}
use inferno_game_server.TokenTable.Update.{Pass, update}
mod Examples

-- The loop of `scrub_list`.
unfoldable pub scrub : ℕ → List User → List Expiry → Result Halt Table
unfolding erase
scrub current_time current_users [] = err undefined
scrub current_time current_users (front ∷ expiry) =
    let rest = scrub current_time (erase front.username current_users) expiry in
    if ltb front.time current_time
    then rest
    else ok (record { current_users = current_users; expiry = front ∷ expiry })

unfoldable pub scrub_list : Timeval → Table → Result Halt Table
unfolding scrub
scrub_list tv t = scrub (tv.tv_sec * 1000000 + tv.tv_usec) t.current_users t.expiry

-- `recvfrom` on `login_sock`, which nothing opens, may fail or wait once no datagram is left.
unfoldable pub receive_loop : List ℕ → List Datagram → Bool → Table → Result Halt Table
unfolding insert strlen c_string overlay
receive_loop buffer [] fails t = do
  n ← or_err undefined (strlen buffer)
  if fails then ok t else err waits
receive_loop buffer (d ∷ ds) fails t = do
  n ← or_err undefined (strlen buffer)
  let received = overlay (take n d.bytes) buffer
  token ← or_err undefined (c_string (take 64 received))
  username ← or_err undefined (c_string (take 21 (drop 64 received)))
  let user : User = record { username = username; token = token }
  let expiry_time = 300 * 1000000 + (d.tv.tv_sec * 1000000 + d.tv.tv_usec)
  receive_loop received ds fails (record {
    current_users = insert user t.current_users;
    expiry = t.expiry ++ record { username = username; time = expiry_time } ∷ [];
  })

unfoldable pub receive_new :
    List ℕ → List ℕ → List ℕ → List Datagram → Bool → Table → Result Halt Table
unfolding receive_loop clear strlen
receive_new buffer token_buffer uname_buffer ds fails t = do
  n ← or_err undefined (strlen buffer)
  token_n ← or_err undefined (strlen token_buffer)
  uname_n ← or_err undefined (strlen uname_buffer)
  receive_loop (clear n buffer) ds fails t

-- What the two copies of the code do is the same.
scrub_alike :
    (now : ℕ) (us : List User) (es : List Expiry) → scrub now us es ≡ TokenTable.scrub now us es
unfolding scrub TokenTable.scrub
scrub_alike now us [] = refl
scrub_alike now us (e ∷ es) = rw (scrub_alike now (erase e.username us) es) refl

pub scrub_list_alike : (tv : Timeval) (t : Table) → scrub_list tv t ≡ TokenTable.scrub_list tv t
unfolding scrub_list TokenTable.scrub_list micros
scrub_list_alike tv t = scrub_alike (tv.tv_sec * 1000000 + tv.tv_usec) t.current_users t.expiry

>>=-alike :
    {A B : Type 0} (r : Result Halt A) (f g : A → Result Halt B)
    → ((a : A) → f a ≡ g a)
    → (r >>= f) ≡ (r >>= g)
>>=-alike (ok a) f g h = h a
>>=-alike (err e) f g h = refl

last_alike :
    (fails : Bool) (t : Table) → (if fails then ok t else err waits) ≡ last_recvfrom fails t
last_alike true t = refl
last_alike false t = refl

loop_alike :
    (buffer : List ℕ) (ds : List Datagram) (fails : Bool) (t : Table)
    → receive_loop buffer ds fails t ≡ TokenTable.receive_loop buffer ds fails t
unfolding receive_loop TokenTable.receive_loop admit micros
loop_alike buffer [] fails t =
    >>=-alike (or_err undefined (strlen buffer)) _ _ (λ n. last_alike fails t)
loop_alike buffer (d ∷ ds) fails t = >>=-alike (or_err undefined (strlen buffer)) _ _ (λ n.
    let received = overlay (take n d.bytes) buffer in
    >>=-alike (or_err undefined (c_string (take 64 received))) _ _ (λ token.
      >>=-alike (or_err undefined (c_string (take 21 (drop 64 received)))) _ _
        (λ username. loop_alike received ds fails (admit username token d.tv t))))

pub receive_new_alike :
    (buffer token_buffer uname_buffer : List ℕ) (ds : List Datagram) (fails : Bool) (t : Table)
    → receive_new buffer token_buffer uname_buffer ds fails t
      ≡ TokenTable.receive_new buffer token_buffer uname_buffer ds fails t
unfolding receive_new TokenTable.receive_new
receive_new_alike buffer token_buffer uname_buffer ds fails t =
    >>=-alike (or_err undefined (strlen buffer)) _ _ (λ n.
      >>=-alike (or_err undefined (strlen token_buffer)) _ _ (λ m.
        >>=-alike (or_err undefined (strlen uname_buffer)) _ _
          (λ k. loop_alike (clear n buffer) ds fails t)))

pub record MatchMaker : Type 0 where
  pub request_sock : Option ℕ
  pub table : Option Table

-- `MatchMaker::MatchMaker`: a failed set-up returns early, and nothing but O_NONBLOCK comes after it.
unfoldable pub match_maker : Option (List Address) → MatchMaker
unfolding setup_udp_server_connection
match_maker addresses = record {
  request_sock = (setup_udp_server_connection addresses).0;
  table = none;
}

abbrev pub allocated : Result Halt Table → Result Halt (Option Table)
allocated r = do t ← r; ok (some t)

-- `receive_new` follows the pointers for each datagram.
abbrev pub receive_unallocated : List Datagram → Bool → Result Halt (Option Table)
receive_unallocated [] fails = if fails then ok none else err waits
receive_unallocated (d ∷ ds) fails = err undefined

abbrev pub receive_through : Pass → Option Table → Result Halt (Option Table)
receive_through p (some t) =
    allocated (receive_new p.buffer p.token_buffer p.uname_buffer p.datagrams p.fails t)
receive_through p none = do
  n ← or_err undefined (strlen p.buffer)
  token_n ← or_err undefined (strlen p.token_buffer)
  uname_n ← or_err undefined (strlen p.uname_buffer)
  receive_unallocated p.datagrams p.fails

-- `scrub_list` follows them at once.
abbrev pub scrub_through : Timeval → Option Table → Result Halt (Option Table)
scrub_through tv (some t) = allocated (scrub_list tv t)
scrub_through tv none = err undefined

-- The table after some passes of `update_tokens`.
unfoldable pub update_tokens : List Pass → Option Table → Result Halt (Option Table)
unfolding receive_new scrub_list
update_tokens [] t = ok t
update_tokens (p ∷ ps) t = do
  t' ← receive_through p t
  t'' ← scrub_through p.tv t'
  update_tokens ps t''

pass_unallocated :
    (p : Pass) (ps : List Pass) (a b c : Option ℕ) (ds : List Datagram)
    → ((do
      n ← or_err undefined a
      token_n ← or_err undefined b
      uname_n ← or_err undefined c
      receive_unallocated ds true)
        >>= λ t'. (scrub_through p.tv t' >>= update_tokens ps))
      ≡ err undefined
pass_unallocated p ps none b c ds = refl
pass_unallocated p ps (some n) none c ds = refl
pass_unallocated p ps (some n) (some m) none ds = refl
pass_unallocated p ps (some n) (some m) (some k) [] = refl
pass_unallocated p ps (some n) (some m) (some k) (d ∷ ds) = refl

-- A pass on a table that is allocated.
pass_allocated :
    (p : Pass) (ps : List Pass) (r : Result Halt Table)
    → ((t : Table) → update_tokens ps (some t) ≡ allocated (update ps t))
    → (allocated r >>= λ t'. (scrub_through p.tv t' >>= update_tokens ps))
      ≡ allocated (r >>= λ t'. (TokenTable.scrub_list p.tv t' >>= update ps))
pass_allocated p ps (err e) rest = refl
pass_allocated p ps (ok t) rest =
    rw (scrub_list_alike p.tv t) (scrubbed_allocated (TokenTable.scrub_list p.tv t))
  where
    scrubbed_allocated :
        (s : Result Halt Table) → (allocated s >>= update_tokens ps) ≡ allocated (s >>= update ps)
    scrubbed_allocated (err e) = refl
    scrubbed_allocated (ok t') = rest t'

update_tokens-allocated :
    (ps : List Pass) (t : Table) → update_tokens ps (some t) ≡ allocated (update ps t)
unfolding update_tokens update
update_tokens-allocated [] t = refl
update_tokens-allocated (p ∷ ps) t =
    rw (receive_new_alike p.buffer p.token_buffer p.uname_buffer p.datagrams p.fails t) (
      pass_allocated p ps
        (TokenTable.receive_new p.buffer p.token_buffer p.uname_buffer p.datagrams p.fails t)
        (update_tokens-allocated ps))

-- The match maker's loop is the chat server's, on a table that is not there. On an allocated table, any
-- passes of `update_tokens` do what the same passes of `ChatServer::update` do; but on what the constructor
-- leaves, whatever becomes of its socket, the first pass is undefined, whatever comes in it, if
-- `recvfrom` fails at last.
pub match_maker_updates :
    (addresses : Option (List Address)) (p : Pass) (ps : List Pass)
    → ((t : Table) → update_tokens ps (some t) ≡ allocated (update ps t))
      × ((p.fails ≡ true) → update_tokens (p ∷ ps) (match_maker addresses).table ≡ err undefined)
unfolding update_tokens match_maker
match_maker_updates addresses p ps = (
  update_tokens-allocated ps,
  λ fails. rw fails (
      pass_unallocated p ps (strlen p.buffer) (strlen p.token_buffer) (strlen p.uname_buffer)
        p.datagrams),
)
