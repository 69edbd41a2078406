-- ===== src/LoginServer/Auth.antt =====
-- `chat_server_auth` and `match_server_auth` (LoginServer.cxx): the token and the name of a user are sent
-- to another server by UDP, and sent again until it answers. The two functions differ in the socket.
use inferno_game_server.Base.{
  ℕ, ◌+◌, ◌-◌, ◌%◌, Bool, true, false, ◌&&◌, List, [], ◌∷◌, ◌++◌, Option, none, some, ltb, length,
  if◌then◌else◌,
}
use inferno_game_server.Base.Bytes.{strlen}

abbrev pub is_ended : Option ℕ → Bool
is_ended none = false
is_ended (some n) = true

-- The C string that `strcpy` and `strcat` leave in an array of 85, which holds what the memory did;
-- none where it does not fit, or `memset` of the old `strlen` goes past the array.
unfoldable pub contents : List ℕ → List ℕ → List ℕ → Option (List ℕ)
unfolding strlen
contents memory auth_token username =
    if is_ended (strlen memory)
    then if ltb (length (auth_token ++ username)) 85 then some (auth_token ++ username) else none
    else none

-- elapsed_time > 500000, where elapsed_time is the difference of the times made an `int`
unfoldable pub is_overdue : ℕ → ℕ → Bool
is_overdue t0 t1 =
    let elapsed_time = (t1 + (4294967296 - t0 % 4294967296)) % 4294967296 in
    ltb 500000 elapsed_time && ltb elapsed_time 2147483648

-- One pass of the loop: whether an answer is there, the time then, whether a datagram that is sent again
-- goes out, and the time after it. Times are in microseconds.
pub record Pass : Type 0 where
  pub ack : Bool
  pub t1 : ℕ
  pub sends : Bool
  pub t0 : ℕ

pub data Verdict : Type 0 where
  confirmed gave_up send_failed waiting : Verdict

-- The loop: the verdict, and how many datagrams were sent again. `waiting` is where the passes end.
unfoldable pub await : ℕ → ℕ → List Pass → Verdict × ℕ
unfolding is_overdue
await t0 tries [] = (waiting, 0)
await t0 tries (p ∷ ps) =
    let later = await p.t0 (tries + 1) ps in
    let again = await t0 tries ps in
    if p.ack
    then (confirmed, 0)
    else if is_overdue t0 p.t1
    then (if p.sends
        then (if ltb 10 (tries + 1) then (gave_up, 1) else (later.0, later.1 + 1))
        else (send_failed, 1))
    else if ltb 10 tries
    then (gave_up, 0)
    else again

pub record Peer : Type 0 where
  -- what the stack holds where the array stands
  pub memory : List ℕ
  -- whether the first datagram goes out, and the time after it
  pub sends : Bool
  pub t0 : ℕ
  pub passes : List Pass

abbrev pub started : Peer → Option (List ℕ) → Option (Verdict × ℕ)
started p none = none
started p (some text) = if p.sends then some (await p.t0 0 p.passes) else some (send_failed, 0)

-- None where the array overflows or is cleared past its end; true is returned exactly if the
-- verdict is `confirmed`.
unfoldable pub chat_server_auth : List ℕ → List ℕ → Peer → Option (Verdict × ℕ)
unfolding contents await
chat_server_auth auth_token username p = started p (contents p.memory auth_token username)

unfoldable pub match_server_auth : List ℕ → List ℕ → Peer → Option (Verdict × ℕ)
unfolding contents await
match_server_auth auth_token username p = started p (contents p.memory auth_token username)
