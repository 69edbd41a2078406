-- ===== src/Session/Loop.antt =====
-- The main loop of a session (`enter_main_loop`, Session.cxx).
use inferno_game_server.Base.{
  ℕ, zero, suc, ◌+◌, ◌≤◌, ◌<◌, ◌≡◌, ◌≢◌, ◌⊎◌, inl, inr, refl, Bool, true, false, List, [], Result,
  ok, err, arith, le→leb, ◌==◌, ==_iff, Bool-cases, ℕ_discrete, if◌then◌else◌,
}
use inferno_game_server.Session.{
  State, Send, Received, got, closed, waits, Accepted, connected, refused, idle, Stop, blocked,
  select_failed, World, handle, handle_recv, handle_accept, sweep, pass,
}

-- A call either blocks or keeps the descriptors up to the largest in reach.
accept-cases :
    (a : Accepted) (s : State)
    → (handle_accept a s ≡ err blocked)
      ⊎ ((r : State × List Send) × (handle_accept a s ≡ ok r) × (s.max_fd ≤ r.0.max_fd))
unfolding handle_accept
accept-cases idle s = inl refl
accept-cases refused s = inr (_, refl, omega arith)
accept-cases (connected fd) s = inr (_, refl, ground arith)

recv-cases :
    (conn i : ℕ) (r : Received) (s : State)
    → (handle_recv conn i r s ≡ err blocked)
      ⊎ ((r' : State × List Send) × (handle_recv conn i r s ≡ ok r') × (s.max_fd ≤ r'.0.max_fd))
unfolding handle_recv
recv-cases conn i waits s = inl refl
recv-cases conn i closed s = inr (_, refl, omega arith)
recv-cases conn i (got byte bytes) s = inr (_, refl, omega arith)

handle-cases :
    (conn : ℕ) (w : World) (i : ℕ) (s : State)
    → (handle conn w i s ≡ err blocked)
      ⊎ ((r : State × List Send) × (handle conn w i s ≡ ok r) × (s.max_fd ≤ r.0.max_fd))
handle-cases conn w i s = elim (Bool-cases (i == conn)) [
  | inl e ↦ rw e (accept-cases w.accept s)
  | inr e ↦ rw e (recv-cases conn i (w.recv i) s)
]

-- One turn of the loop likewise.
turn-cases :
    (conn : ℕ) (w : World) (b : Bool) (i : ℕ) (s : State)
    → ((if b then handle conn w i s else ok (s, [])) ≡ err blocked)
      ⊎ ((r : State × List Send) × ((if b then handle conn w i s else ok (s, [])) ≡ ok r)
          × (s.max_fd ≤ r.0.max_fd))
turn-cases conn w true i s = handle-cases conn w i s
turn-cases conn w false i s = inr (_, refl, omega arith)

handle_blocks :
    (conn c : ℕ) (w : World) (s : State)
    → c ≢ conn
    → w.recv c ≡ waits
    → handle conn w c s ≡ err blocked
unfolding handle_recv
handle_blocks conn c w s n r = elim (Bool-cases (c == conn)) [
  | inl e ↦ absurd (n ((==_iff c conn).0 e))
  | inr e ↦ rw e (rw r refl)
]

sweep_blocks :
    (fuel conn : ℕ) (w : World) (temp_set : ℕ → Bool) (i c : ℕ) (s : State)
    → temp_set c ≡ true
    → c ≢ conn
    → w.recv c ≡ waits
    → i ≤ c
    → c ≤ s.max_fd
    → c < i + fuel
    → sweep fuel conn w temp_set i s ≡ err blocked
unfolding sweep
sweep_blocks zero conn w temp_set i c s t n r a b f = absurd (omega arith)
sweep_blocks (suc fuel) conn w temp_set i c s t n r a b f =
    rw (le→leb i s.max_fd (omega arith)) (elim (ℕ_discrete i c) [
      | yes e ↦
          let here : temp_set i ≡ true = rw e t in
          rw here (rw e (rw (handle_blocks conn c w s n r) refl))
      | no ne ↦ elim (turn-cases conn w (temp_set i) i s) [
        | inl e ↦ rw e refl
        | inr (q, e, more) ↦ rw (
          e,
          sweep_blocks fuel conn w temp_set (i + 1) c q.0 t n r (omega arith) (omega arith)
              (omega arith),
        )
      ]
    ])

selected :
    (select_ok : Bool) (res : Result Stop (State × List Send))
    → select_ok ≡ true
    → res ≡ err blocked
    → (if select_ok then res else err select_failed) ≡ err blocked
selected true res t b = b
selected false res t b = cc

-- One silent client holds up the session: where `select` succeeds and some client of the set, of a
-- descriptor up to the largest and below 1024, has sent nothing and not closed, the pass does not end,
-- whoever else is ready.
pub pass_blocks :
    (conn_socket c : ℕ) (w : World) (s : State)
    → w.select_ok ≡ true
    → s.client_set c ≡ true
    → c ≢ conn_socket
    → w.recv c ≡ waits
    → c ≤ s.max_fd
    → c < 1024
    → pass conn_socket w s ≡ err blocked
unfolding pass
pass_blocks conn c w s ok_ t n r b f = selected w.select_ok _ ok_ (
    sweep_blocks 1024 conn w s.client_set 0 c (record s { client_set = w.ready }) t n r
      (omega arith) b (omega arith))
