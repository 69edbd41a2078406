-- ===== src/GameClient/Pacing.antt =====
-- How fast the game client sends (game_client.cxx).
use inferno_game_server.Base.{
  ℕ, suc, ◌+◌, ◌-◌, ◌*◌, ◌%◌, ◌≤◌, ◌<◌, ◌≡◌, subst, Bool, true, false, not, ◌&&◌, inl, inr,
  Bool-cases, List, [], ◌∷◌, Option, none, some, Result, ok, err, or_err, >>=-eq-ok, ltb, arith,
  if◌then◌else◌,
}
use inferno_game_server.Base.Int.{ℤ, pos, ◌-ℤ◌}
use inferno_game_server.Listeners.{Address, scan_addresses, open_turn}
use inferno_game_server.GameClient.{
  Stop, undefined, elapsed, is_due, Timeval, advanced, micros, State, Turn, send, turn, run, found,
  game_client,
}

-- The time between two moments less than 2^31 microseconds apart is computed rightly, except where
-- the later has passed a multiple of 2^31 that is none of 2^32: there the difference of the two
-- ints overflows.
pub elapsed_defined :
    (current last : ℕ)
    → last ≤ current
    → current - last < 2147483648
    → elapsed current last ≡ (
        if ltb (last % 4294967296) 2147483648 && not (ltb (current % 4294967296) 2147483648)
        then none
        else some (pos (current - last)))
unfolding elapsed ◌-ℤ◌
elapsed_defined current last h d = ground arith

-- A time that is due has passed.
elapsed-due :
    (current last : ℕ) (us : ℤ)
    → last ≤ current
    → elapsed current last ≡ some us
    → is_due us ≡ true
    → last + 17000 ≤ current
unfolding elapsed ◌-ℤ◌
elapsed-due current last us h e d = ground arith

-- The clock does not go back.
abbrev pub IsTimed : ℕ → List Turn → Type 0
IsTimed now [] = Unit
IsTimed now (r ∷ rs) = (now ≤ micros r.current) × IsTimed (micros r.current) rs

abbrev pub final : ℕ → List Turn → ℕ
final now [] = now
final now (r ∷ rs) = final (micros r.current) rs

-- `last` is the start and 17 ms for each packet, and has come.
abbrev IsPaced : ℕ → ℕ → State → Type 0
IsPaced start now s = (micros s.last ≡ start + 17000 * s.sent) × (micros s.last ≤ now)

ok_once : (s s' : State) → ◌≡◌ {A = Result Stop State} (ok s) (ok s') → s ≡ s'
ok_once s s' h = cc

not_ok : (s' : State) → ◌≡◌ {A = Result Stop State} (err undefined) (ok s') → ⊥
not_ok s' h = cc

send-IsPaced :
    (address sends : Bool) (start now : ℕ) (s s' : State)
    → micros s.last ≡ start + 17000 * suc s.sent
    → micros s.last ≤ now
    → send address sends s ≡ ok s'
    → IsPaced start now s'
send-IsPaced false sends start now s s' p l h = absurd (cc)
send-IsPaced true false start now s s' p l h = absurd (cc)
send-IsPaced true true start now s s' p l h = elim (Bool-cases (ltb (suc s.sent) 2147483648)) [
  | inl e ↦
      let same : record s { sent = suc s.sent } ≡ s' = ok_once _ s' (rw e at h) in
      subst (IsPaced start now) same (p, l)
  | inr e ↦ absurd (not_ok s' (rw e at h))
]

or_err-ok : (o : Option ℤ) (us : ℤ) → or_err undefined o ≡ ok us → o ≡ some us
or_err-ok none us h = absurd (cc)
or_err-ok (some x) us h = cc

turn-IsPaced :
    (address : Bool) (r : Turn) (start : ℕ) (s s' : State)
    → IsPaced start (micros r.current) s
    → turn address r s ≡ ok s'
    → IsPaced start (micros r.current) s'
unfolding turn
turn-IsPaced address r start s s' p h =
    let (us, e, k) =
      >>=-eq-ok (or_err undefined (elapsed (micros r.current) (micros s.last))) _ h in
    let came : elapsed (micros r.current) (micros s.last) ≡ some us = or_err-ok _ us k in
    elim (Bool-cases (is_due us)) [
      | inl due ↦
          send-IsPaced address r.sends start (micros r.current)
            (record s { last = advanced s.last }) s' (omega (arith, p.0))
            (omega (arith, elapsed-due _ _ us p.1 came due)) (rw due at e)
      | inr early ↦ subst (IsPaced start (micros r.current)) (ok_once s s' (rw early at e)) p
    ]

run-IsPaced :
    (address : Bool) (rs : List Turn) (start now : ℕ) (s s' : State)
    → IsTimed now rs
    → IsPaced start now s
    → run address rs s ≡ ok s'
    → IsPaced start (final now rs) s'
unfolding run
run-IsPaced address [] start now s s' t p h = subst (IsPaced start now) (ok_once s s' h) p
run-IsPaced address (r ∷ rs) start now s s' t p h =
    let (m, e, k) = >>=-eq-ok (turn address r s) (run address rs) h in
    run-IsPaced address rs start (micros r.current) m s' t.1
      (turn-IsPaced address r start s m (p.0, omega (arith, p.1, t.0)) k) e

-- However often the loop turns, and although the differences of its times are computed in `int`s
-- that wrap: if the clock does not go back, then while the client is not stopped it has sent at
-- most one packet for each 17 milliseconds since its start.
pub client_paced :
    (addresses : List Address) (sock : Option ℕ) (start : Timeval) (rs : List Turn) (s' : State)
    → IsTimed (micros start) rs
    → (game_client (some addresses) sock start rs).1 ≡ ok s'
    → micros start + 17000 * s'.sent ≤ final (micros start) rs
unfolding game_client
client_paced addresses sock start rs s' timed h =
    let paced =
      run-IsPaced (found (scan_addresses (λ a. open_turn a.fd) addresses sock).exit) rs
        (micros start) (micros start) (record { last = start; sent = 0 }) s' timed
        (omega arith, omega arith) h in
    omega (arith, paced.0, paced.1)
