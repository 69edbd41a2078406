-- ===== src/Session/Fuel.antt =====
-- The loop over the descriptors has fuel enough (`enter_main_loop`, Session.cxx).
use inferno_game_server.Base.{
  ℕ, zero, suc, ◌+◌, ◌≤◌, ◌<◌, ◌≢◌, inl, inr, Bool, true, false, List, [], Result, ok, err, ◌>>=◌,
  arith, leb, leb→le, ◌==◌, Bool-cases, if◌then◌else◌,
}
use inferno_game_server.Session.{
  State, Send, Received, got, closed, waits, Accepted, connected, refused, idle, Stop, blocked,
  select_failed, ran_out, World, handle, handle_recv, handle_accept, sweep, pass,
}

-- A descriptor that `accept` returns is below FD_SETSIZE.
abbrev pub IsSelectable : Accepted → Type 0
IsSelectable (connected fd) = fd < 1024
IsSelectable refused = Unit
IsSelectable idle = Unit

-- A call blocks, or leaves the descriptors below FD_SETSIZE; it does not run out of fuel.
abbrev Ends : Result Stop (State × List Send) → Type 0
Ends (ok r) = r.0.max_fd < 1024
Ends (err blocked) = Unit
Ends (err select_failed) = Unit
Ends (err ran_out) = ⊥

accept-Ends :
    (a : Accepted) (s : State) → IsSelectable a → s.max_fd < 1024 → Ends (handle_accept a s)
unfolding handle_accept
accept-Ends idle s f h = tt
accept-Ends refused s f h = h
accept-Ends (connected fd) s f h = ground arith

recv-Ends :
    (conn i : ℕ) (r : Received) (s : State) → s.max_fd < 1024 → Ends (handle_recv conn i r s)
unfolding handle_recv
recv-Ends conn i waits s h = tt
recv-Ends conn i closed s h = h
recv-Ends conn i (got byte bytes) s h = h

handle-Ends :
    (conn : ℕ) (w : World) (i : ℕ) (s : State)
    → IsSelectable w.accept
    → s.max_fd < 1024
    → Ends (handle conn w i s)
handle-Ends conn w i s f h = elim (Bool-cases (i == conn)) [
  | inl e ↦ rw e (accept-Ends w.accept s f h)
  | inr e ↦ rw e (recv-Ends conn i (w.recv i) s h)
]

turn-Ends :
    (conn : ℕ) (w : World) (b : Bool) (i : ℕ) (s : State)
    → IsSelectable w.accept
    → s.max_fd < 1024
    → Ends (if b then handle conn w i s else ok (s, []))
turn-Ends conn w true i s f h = handle-Ends conn w i s f h
turn-Ends conn w false i s f h = h

bind-Ends :
    (res : Result Stop (State × List Send))
    (k : State × List Send → Result Stop (State × List Send))
    → Ends res
    → ((r : State × List Send) → r.0.max_fd < 1024 → Ends (k r))
    → Ends (res >>= k)
bind-Ends (ok r) k e h = h r e
bind-Ends (err blocked) k e h = tt
bind-Ends (err select_failed) k e h = tt
bind-Ends (err ran_out) k e h = e

sweep-Ends :
    (fuel conn : ℕ) (w : World) (temp_set : ℕ → Bool) (i : ℕ) (s : State)
    → IsSelectable w.accept
    → s.max_fd < 1024
    → 1024 ≤ i + fuel
    → Ends (sweep fuel conn w temp_set i s)
unfolding sweep
sweep-Ends zero conn w temp_set i s f h g = elim (Bool-cases (leb i s.max_fd)) [
  | inl e ↦ absurd (omega (arith, leb→le i s.max_fd e))
  | inr e ↦ rw e h
]
sweep-Ends (suc fuel) conn w temp_set i s f h g = elim (Bool-cases (leb i s.max_fd)) [
  | inr e ↦ rw e h
  | inl e ↦ rw e (
      bind-Ends _ _ (turn-Ends conn w (temp_set i) i s f h) (λ r h'.
        bind-Ends _ _ (sweep-Ends fuel conn w temp_set (i + 1) r.0 f h' (omega arith))
          (λ r' h''. h'')))
]

not-ran_out : (res : Result Stop (State × List Send)) → Ends res → res ≢ err ran_out
not-ran_out (ok r) e q = cc
not-ran_out (err blocked) e q = cc
not-ran_out (err select_failed) e q = cc
not-ran_out (err ran_out) e q = absurd e

selected-Ends :
    (select_ok : Bool) (res : Result Stop (State × List Send))
    → Ends res
    → Ends (if select_ok then res else err select_failed)
selected-Ends true res e = e
selected-Ends false res e = tt

-- The fuel is enough: while descriptors are below FD_SETSIZE, a pass of the loop ends by its own code or
-- blocks in a call, and never for want of fuel.
pub pass_has_fuel :
    (conn_socket : ℕ) (w : World) (s : State)
    → IsSelectable w.accept
    → s.max_fd < 1024
    → pass conn_socket w s ≢ err ran_out
unfolding pass
pass_has_fuel conn w s f h = not-ran_out _ (
    selected-Ends w.select_ok _
      (sweep-Ends 1024 conn w s.client_set 0 (record s { client_set = w.ready }) f h (omega arith)))
