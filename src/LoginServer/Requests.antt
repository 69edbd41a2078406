-- ===== src/LoginServer/Requests.antt =====
-- `get_request_type` and the service loop of `start` (LoginServer.cxx): each accepted connection is
-- served by a forked child, on a copy of the parent's state.
use inferno_game_server.Base.{
  ℕ, zero, suc, Bool, true, false, List, [], ◌∷◌, ◌++◌, Option, none, some, if◌then◌else◌,
}
use inferno_game_server.Base.Int.{ℤ, pos, negsuc}
use inferno_game_server.LoginServer.Handler.{
  Action, Fault, Outcome, done, returned, fault, sent_short,
}
use inferno_game_server.LoginServer.Reads.{signed16}
use inferno_game_server.LoginServer.Login.{Request, login_user}
use inferno_game_server.LoginServer.Signup.{Registration, signup_user}

-- `recv`: the 16 bits of the request after `ntohs`, or none where the call returns -1.
pub record Arrival : Type 0 where
  pub recv : Option ℕ
  pub send_ack : Bool

abbrev pub acknowledged : Bool → ℕ → ℤ
acknowledged true code = signed16 code
acknowledged false code = negsuc 0

abbrev pub request_type : Bool → Option ℕ → ℤ × List Action
request_type send_ack none = (negsuc 0, sent_short 0 ∷ [])
request_type send_ack (some code) = (acknowledged send_ack code, sent_short 1 ∷ [])

unfoldable pub get_request_type : Arrival → ℤ × List Action
get_request_type a = request_type a.send_ack a.recv

-- How a child ends: by `exit`, by leaving the service loop as its parent would, or not by its own code.
pub data End : Type 0 where
  exits leaves_loop : End
  faulted : Fault → End

pub record Client : Type 0 where
  pub arrival : Arrival
  pub request : Request
  pub registration : Registration

abbrev pub ended : Outcome (Unit {0}) × List Action → End × List Action
ended (done a, log) = (exits, log)
ended (returned r, log) = (exits, log)
ended (fault e, log) = (faulted e, log)

pub record Server : Type 0 where
  pub next_registration_port : ℕ
  pub next_login_port : ℕ
  -- the descriptors of connections that are open
  pub open_conns : List ℕ

abbrev pub dispatch : ℤ → Server → Client → List Action → End × List Action
dispatch (pos zero) s c log = ended (login_user c.request s.next_login_port log)
dispatch (pos (suc zero)) s c log = ended (signup_user c.registration s.next_registration_port log)
dispatch (pos (suc (suc n))) s c log = (exits, log)
dispatch (negsuc zero) s c log = (leaves_loop, log)
dispatch (negsuc (suc n)) s c log = (exits, log)

-- The child block.
unfoldable pub serve : Server → Client → End × List Action
unfolding get_request_type
serve s c = let (req_type, log) = get_request_type c.arrival in dispatch req_type s c log

-- A result of `accept`, with the client behind it; `unforked` where `fork` then fails, which the code takes
-- for the parent's return.
pub data Accept : Type 0 where
  refused : Accept
  accepted : ℕ → Client → Accept
  unforked : ℕ → Accept

-- One round of the loop: the parent's state afterwards, and what the child does.
unfoldable pub round : Server → Accept → Server × List (End × List Action)
unfolding serve
round s refused = (s, [])
round s (unforked data_conn) = (record s { open_conns = data_conn ∷ s.open_conns }, [])
round s (accepted data_conn c) =
    (record s { open_conns = data_conn ∷ s.open_conns }, serve s c ∷ [])

unfoldable pub rounds : Server → List Accept → Server × List (End × List Action)
unfolding round
rounds s [] = (s, [])
rounds s (a ∷ as') =
    let (s', served) = round s a in let (s'', more) = rounds s' as' in (s'', served ++ more)

-- `start`: none where it returns false.
unfoldable pub start :
    Bool → Bool → Server → List Accept → Option (Server × List (End × List Action))
unfolding rounds
start listens sigaction s accepts =
    if listens then if sigaction then some (rounds s accepts) else none else none
