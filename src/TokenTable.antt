-- ===== src/TokenTable.antt =====
-- GameServer/ChatServer/ChatServer.cxx (and, in the same words, Linear/MatchMaker.cxx): the users whom
-- the login server has vouched for. `current_users` is a std::map, whose `insert` keeps an entry that is
-- there; `expiry` is a std::deque of names and times in microseconds. `front` of an empty deque and a C
-- string that its array does not end are undefined behaviour.
pub mod Users
pub mod Scrub
pub mod Login
pub mod History
pub mod Receive
pub mod Accounts
pub mod Update
mod Examples
use inferno_game_server.Base.{
  ℕ, ◌+◌, ◌*◌, Bool, true, false, List, [], ◌∷◌, ◌++◌, Option, none, some, Result, ok, err, ◌>>=◌,
  or_err, ltb, take, drop, if◌then◌else◌,
}
use inferno_game_server.Base.Bytes.{same, c_string, strlen, clear, overlay}

-- Undefined behaviour, or a call that does not return.
pub data Halt : Type 0 where
  undefined waits : Halt

pub record User : Type 0 where
  pub username : List ℕ
  pub token : List ℕ

pub record Expiry : Type 0 where
  pub username : List ℕ
  pub time : ℕ

pub record Table : Type 0 where
  pub current_users : List User
  pub expiry : List Expiry

unfoldable pub empty : Table
empty = record { current_users = []; expiry = [] }

unfoldable pub find : List ℕ → List User → Option (List ℕ)
unfolding same
find name [] = none
find name (u ∷ us) = let rest = find name us in if same u.username name then some u.token else rest

unfoldable pub insert : User → List User → List User
unfolding same
insert v [] = v ∷ []
insert v (u ∷ us) =
    let rest = insert v us in if same u.username v.username then u ∷ us else u ∷ rest

unfoldable pub erase : List ℕ → List User → List User
unfolding same
erase name [] = []
erase name (u ∷ us) = let rest = erase name us in if same u.username name then rest else u ∷ rest

-- tv.tv_sec * 1000000 + tv.tv_usec
pub record Timeval : Type 0 where
  pub tv_sec : ℕ
  pub tv_usec : ℕ

unfoldable pub micros : Timeval → ℕ
micros tv = tv.tv_sec * 1000000 + tv.tv_usec

-- The loop of `scrub_list`, over the deque.
unfoldable pub scrub : ℕ → List User → List Expiry → Result Halt Table
unfolding erase
scrub current_time users [] = err undefined
scrub current_time users (e ∷ es) =
    let rest = scrub current_time (erase e.username users) es in
    if ltb e.time current_time then rest else ok (record { current_users = users; expiry = e ∷ es })

unfoldable pub scrub_list : Timeval → Table → Result Halt Table
unfolding scrub micros
scrub_list tv t = scrub (micros tv) t.current_users t.expiry

-- What the loop of `receive_new` records for one packet.
unfoldable pub admit : List ℕ → List ℕ → Timeval → Table → Table
unfolding insert micros
admit username token tv t = record {
  current_users = insert (record { username = username; token = token }) t.current_users;
  expiry = t.expiry ++ record { username = username; time = 300 * 1000000 + micros tv } ∷ [];
}

-- A datagram of the login server, and the time at which its packet is processed.
pub record Datagram : Type 0 where
  pub bytes : List ℕ
  pub tv : Timeval

-- After the last datagram: `recvfrom` fails, or it waits, since the socket is a blocking one.
abbrev pub last_recvfrom : Bool → Table → Result Halt Table
last_recvfrom true t = ok t
last_recvfrom false t = err waits

-- The loop of `receive_new` over the datagrams that arrive, and whether `recvfrom` then fails: it
-- is asked for `strlen(buffer)` bytes, and what it delivers overlays the buffer.
unfoldable pub receive_loop : List ℕ → List Datagram → Bool → Table → Result Halt Table
unfolding admit strlen c_string overlay
receive_loop buffer [] fails t = do n ← or_err undefined (strlen buffer); last_recvfrom fails t
receive_loop buffer (d ∷ ds) fails t = do
  n ← or_err undefined (strlen buffer)
  let buffer' = overlay (take n d.bytes) buffer
  token ← or_err undefined (c_string (take 64 buffer'))
  username ← or_err undefined (c_string (take 21 (drop 64 buffer')))
  receive_loop buffer' ds fails (admit username token d.tv t)

-- The three arrays start with what the stack holds. Each is cleared up to its first NUL; the other two
-- are then overwritten whole by `memcpy` before they are read.
unfoldable pub receive_new :
    List ℕ → List ℕ → List ℕ → List Datagram → Bool → Table → Result Halt Table
unfolding receive_loop clear strlen
receive_new buffer token_buffer uname_buffer ds fails t = do
  n ← or_err undefined (strlen buffer)
  token_n ← or_err undefined (strlen token_buffer)
  uname_n ← or_err undefined (strlen uname_buffer)
  receive_loop (clear n buffer) ds fails t
