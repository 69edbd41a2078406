-- ===== src/Session/Forgets.antt =====
-- What `select` leaves out of the set of clients (Session.cxx): the set that is kept is the one
-- that `select` overwrites.
use inferno_game_server.Base.{
  ℕ, zero, suc, ◌+◌, ◌≡◌, ◌≢◌, ==_iff, inl, inr, refl, subst, ap, sym, ◌∙◌, not, ◌&&◌, All,
  All-append, Bool, true, false, Bool-cases, List, [], ◌∷◌, ◌++◌, Result, ok, err, >>=-eq-ok, leb,
  ◌==◌, if◌then◌else◌,
}
use inferno_game_server.Session.{
  State, Received, packet, got, closed, waits, Accepted, connected, refused, idle, Stop,
  select_failed, Send, World, send_one, broadcast, handle_accept, handle_recv, handle, sweep, pass,
  enter_main_loop, fd_set, fd_clr,
}

-- A descriptor that is out of the set, and that nothing is sent to.
abbrev pub IsOut : ℕ → State × List Send → Type 0
IsOut c r = (r.0.client_set c ≡ false) × All (λ m. m.to ≢ c) r.1

once :
    (c : ℕ) (q r : State × List Send)
    → IsOut c q
    → ◌≡◌ {A = Result Stop (State × List Send)} (ok q) (ok r)
    → IsOut c r
once c q r h e = let same : q ≡ r = cc in subst (IsOut c) same h

failed_once :
    {x : Stop}
    → (r : State × List Send) → ◌≡◌ {A = Result Stop (State × List Send)} (err x) (ok r)
    → ⊥
failed_once r h = cc

true_is_no_false : true ≡ false → ⊥
true_is_no_false h = cc

selected :
    (select_ok : Bool) (res : Result Stop (State × List Send)) (r : State × List Send)
    → (if select_ok then res else err select_failed) ≡ ok r
    → res ≡ ok r
selected true res r e = e
selected false res r e = absurd (failed_once r e)

fd_set-other : (fd c : ℕ) (set : ℕ → Bool) → c ≢ fd → set c ≡ false → fd_set fd set c ≡ false
fd_set-other fd c set n h = elim (Bool-cases (c == fd)) [
  | inl e ↦ absurd (n ((==_iff c fd).0 e))
  | inr e ↦ rw e h
]

fd_clr-out : (fd c : ℕ) (set : ℕ → Bool) → set c ≡ false → fd_clr fd set c ≡ false
fd_clr-out fd c set h = elim (Bool-cases (c == fd)) [ inl e ↦ rw e refl | inr e ↦ rw e h ]

send_one_passes_by :
    (conn_socket : ℕ) (bytes : List ℕ) (sender c : ℕ) (set : ℕ → Bool) (i : ℕ)
    → set c ≡ false
    → All (λ m. m.to ≢ c) (send_one conn_socket bytes sender set i)
send_one_passes_by conn bytes sender c set i h = elim (Bool-cases (set i)) [
  | inr e ↦ rw e tt
  | inl e ↦ elim (Bool-cases (not (i == conn) && not (i == sender))) [
    | inr f ↦ rw (e, f) tt
    | inl f ↦ rw (e, f) (λ same. absurd (true_is_no_false (sym e ∙ (ap set same ∙ h))), tt)
  ]
]

broadcast_passes_by :
    (conn_socket : ℕ) (bytes : List ℕ) (sender c : ℕ) (set : ℕ → Bool)
    → set c ≡ false
    → (max_fd : ℕ) → All (λ m. m.to ≢ c) (broadcast conn_socket bytes sender set max_fd)
unfolding broadcast
broadcast_passes_by conn bytes sender c set h zero = tt
broadcast_passes_by conn bytes sender c set h (suc i) =
    All-append (λ (m : Send). m.to ≢ c) (broadcast conn bytes sender set i) _
      (broadcast_passes_by conn bytes sender c set h i)
      (send_one_passes_by conn bytes sender c set i h)

-- It stays out, unless an `accept` gives it.
module _ (c : ℕ) where
  accept_spares :
      (a : Accepted) (s : State) (r : State × List Send)
      → a ≢ connected c
      → s.client_set c ≡ false
      → handle_accept a s ≡ ok r
      → IsOut c r
  unfolding handle_accept
  accept_spares idle s r n h e = absurd (cc)
  accept_spares refused s r n h e = once c _ r (h, tt) e
  accept_spares (connected fd) s r n h e =
      once c _ r (fd_set-other fd c s.client_set (λ same. n (ap connected (sym same))) h, tt) e

  recv_spares :
      (conn_socket sender : ℕ) (x : Received) (s : State) (r : State × List Send)
      → s.client_set c ≡ false
      → handle_recv conn_socket sender x s ≡ ok r
      → IsOut c r
  unfolding handle_recv
  recv_spares conn sender waits s r h e = absurd (cc)
  recv_spares conn sender closed s r h e = once c _ r (fd_clr-out sender c s.client_set h, tt) e
  recv_spares conn sender (got byte bytes) s r h e =
      once c _ r (h, broadcast_passes_by conn (packet byte bytes) sender c s.client_set h s.max_fd)
        e

  turn_spares :
      (conn_socket : ℕ) (w : World) (b : Bool) (i : ℕ) (s : State) (r : State × List Send)
      → w.accept ≢ connected c
      → s.client_set c ≡ false
      → (if b then handle conn_socket w i s else ok (s, [])) ≡ ok r
      → IsOut c r
  turn_spares conn w false i s r n h e = once c _ r (h, tt) e
  turn_spares conn w true i s r n h e = elim (Bool-cases (i == conn)) [
    | inl f ↦ accept_spares w.accept s r n h (rw f at e)
    | inr f ↦ recv_spares conn i (w.recv i) s r h (rw f at e)
  ]

  sweep_spares :
      (fuel conn_socket : ℕ) (w : World) (temp_set : ℕ → Bool) (i : ℕ) (s : State)
      (r : State × List Send)
      → w.accept ≢ connected c
      → s.client_set c ≡ false
      → sweep fuel conn_socket w temp_set i s ≡ ok r
      → IsOut c r
  unfolding sweep
  sweep_spares zero conn w temp_set i s r n h e = elim (Bool-cases (leb i s.max_fd)) [
    | inl f ↦ absurd (failed_once r (rw f at e))
    | inr f ↦ once c _ r (h, tt) (rw f at e)
  ]
  sweep_spares (suc fuel) conn w temp_set i s r n h e = elim (Bool-cases (leb i s.max_fd)) [
    | inr f ↦ once c _ r (h, tt) (rw f at e)
    | inl f ↦
        let (q, more, here) =
          >>=-eq-ok (if temp_set i then handle conn w i s else ok (s, [])) _ (rw f at e) in
        let out = turn_spares conn w (temp_set i) i s q n h here in
        let (q', last, rest) = >>=-eq-ok (sweep fuel conn w temp_set (i + 1) q.0) _ more in
        let after = sweep_spares fuel conn w temp_set (i + 1) q.0 q' n out.0 rest in
        once c (q'.0, q.1 ++ q'.1) r
          (after.0, All-append (λ (m : Send). m.to ≢ c) q.1 q'.1 out.1 after.1) last
  ]

  pass_spares :
      (conn_socket : ℕ) (w : World) (s : State) (r : State × List Send)
      → w.accept ≢ connected c
      → w.ready c ≡ false
      → pass conn_socket w s ≡ ok r
      → IsOut c r
  unfolding pass
  pass_spares conn w s r n h e =
      sweep_spares 1024 conn w s.client_set 0 (record s { client_set = w.ready }) r n h
        (selected w.select_ok _ r e)

-- `select` only takes descriptors out of the set that it is given.
abbrev pub Selects : ℕ → List World → State → Type 0
Selects conn_socket [] s = Unit
Selects conn_socket (w ∷ ws) s =
    ((i : ℕ) → s.client_set i ≡ false → w.ready i ≡ false)
    × ((r : State × List Send) → pass conn_socket w s ≡ ok r → Selects conn_socket ws r.0)

abbrev pub NeverAccepts : ℕ → List World → Type 0
NeverAccepts c ws = All (λ w. w.accept ≢ connected c) ws

loop_spares :
    (c conn_socket : ℕ) (ws : List World) (s : State) (r : State × List Send)
    → NeverAccepts c ws
    → Selects conn_socket ws s
    → s.client_set c ≡ false
    → enter_main_loop conn_socket ws s ≡ ok r
    → IsOut c r
unfolding enter_main_loop
loop_spares c conn [] s r n o h e = once c _ r (h, tt) e
loop_spares c conn (w ∷ ws) s r n o h e =
    let (q, more, here) = >>=-eq-ok (pass conn w s) _ e in
    let out = pass_spares c conn w s q n.0 (o.0 c h) here in
    let (q', last, rest) = >>=-eq-ok (enter_main_loop conn ws q.0) _ more in
    let after = loop_spares c conn ws q.0 q' n.1 (o.1 q here) out.0 rest in
    once c (q'.0, q.1 ++ q'.1) r
      (after.0, All-append (λ (m : Send). m.to ≢ c) q.1 q'.1 out.1 after.1) last

-- A client that is not ready in one pass is lost: `select` takes it out of the very set that is
-- kept, and as long as no `accept` gives its descriptor anew, however many passes follow, nothing
-- is sent to it any more and it is not among those that `select` is asked about. The same holds of
-- the listening socket.
pub loop_forgets :
    (c conn_socket : ℕ) (w : World) (ws : List World) (s : State) (r : State × List Send)
    → NeverAccepts c (w ∷ ws)
    → Selects conn_socket (w ∷ ws) s
    → w.ready c ≡ false
    → enter_main_loop conn_socket (w ∷ ws) s ≡ ok r
    → IsOut c r
unfolding enter_main_loop
loop_forgets c conn w ws s r n o h e =
    let (q, more, here) = >>=-eq-ok (pass conn w s) _ e in
    let out = pass_spares c conn w s q n.0 h here in
    let (q', last, rest) = >>=-eq-ok (enter_main_loop conn ws q.0) _ more in
    let after = loop_spares c conn ws q.0 q' n.1 (o.1 q here) out.0 rest in
    once c (q'.0, q.1 ++ q'.1) r
      (after.0, All-append (λ (m : Send). m.to ≢ c) q.1 q'.1 out.1 after.1) last
