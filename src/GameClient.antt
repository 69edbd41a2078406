-- ===== src/GameClient.antt =====
-- GameServer/MatchServer/client/game_client.cxx: the client that sends a packet every 17
-- milliseconds. What the clock and `sendto` give in a turn of its loop is an argument. The address
-- that it sends to is read after `freeaddrinfo`, and taken to be what it was.
use inferno_game_server.Base.{
  ℕ, zero, suc, ◌+◌, ◌-◌, ◌*◌, ◌%◌, ◌≤◌, Bool, true, false, ◌&&◌, List, [], ◌∷◌, ◌++◌, Option, none,
  some, Result, ok, err, or_err, ◌>>=◌, ltb, leb, ◌==◌, if◌then◌else◌,
}
use inferno_game_server.Base.Int.{ℤ, pos, negsuc, ◌-ℤ◌}
use inferno_game_server.ServerUtils.{Action, frees}
use inferno_game_server.Listeners.{Address, Exit, ran_out, broke, left, scan_addresses, open_turn}
pub mod Pacing
mod Examples

-- EXIT_FAILURE, and behaviour that C++ leaves undefined.
pub data Stop : Type 0 where
  exit_failure undefined : Stop

-- A `long` of microseconds made an `int`.
abbrev pub int_of : ℕ → ℤ
int_of n = let r = n % 4294967296 in if ltb r 2147483648 then pos r else negsuc (4294967295 - r)

abbrev pub in_int : ℤ → Option ℤ
in_int (pos n) = if ltb n 2147483648 then some (pos n) else none
in_int (negsuc n) = if ltb n 2147483648 then some (negsuc n) else none

-- current_us - last_us, of two `int`s; none where the difference is none.
unfoldable pub elapsed : ℕ → ℕ → Option ℤ
unfolding ◌-ℤ◌
elapsed current last = in_int (int_of current -ℤ int_of last)

abbrev pub is_due : ℤ → Bool
is_due (pos n) = leb 17000 n
is_due (negsuc n) = false

pub record Timeval : Type 0 where
  pub tv_sec : ℕ
  pub tv_usec : ℕ

abbrev pub micros : Timeval → ℕ
micros t = t.tv_sec * 1000000 + t.tv_usec

pub record State : Type 0 where
  pub last : Timeval
  pub sent : ℕ

-- A turn of the loop: the time that `gettimeofday` gives, and whether `sendto` succeeds.
pub record Turn : Type 0 where
  pub current : Timeval
  pub sends : Bool

-- `i` is NULL where no address gave a socket; `sent` is an int.
abbrev pub send : Bool → Bool → State → Result Stop State
send false sends s = err undefined
send true false s = err exit_failure
send true true s =
    if ltb (suc s.sent) 2147483648 then ok (record s { sent = suc s.sent }) else err undefined

-- last.tv_usec += 17000
abbrev pub advanced : Timeval → Timeval
advanced t = record t { tv_usec = t.tv_usec + 17000 }

unfoldable pub turn : Bool → Turn → State → Result Stop State
unfolding elapsed
turn address r s = do
  us ← or_err undefined (elapsed (micros r.current) (micros s.last))
  if is_due us then send address r.sends (record s { last = advanced s.last }) else ok s

unfoldable pub run : Bool → List Turn → State → Result Stop State
unfolding turn
run address [] s = ok s
run address (r ∷ rs) s = do s' ← turn address r s; run address rs s'

abbrev pub found : Exit → Bool
found ran_out = false
found broke = true
found left = false

-- `main`, from the result of `getaddrinfo` on: what was done to descriptors, and the run of the loop.
unfoldable pub game_client :
    Option (List Address) → Option ℕ → Timeval → List Turn → List Action × Result Stop State
unfolding scan_addresses run
game_client none sock start rs = ([], err exit_failure)
game_client (some serverinfo) sock start rs =
    let s = scan_addresses (λ a. open_turn a.fd) serverinfo sock in
    (s.log ++ frees ∷ [], run (found s.exit) rs (record { last = start; sent = 0 }))
