-- ===== src/Session/Broadcast.antt =====
-- Who gets what a client sends (`handle_recv`, Session.cxx).
use inferno_game_server.Base.{
  ℕ, zero, suc, ◌+◌, ◌≡◌, refl, Bool, not, ◌&&◌, List, [], ◌∷◌, ◌++◌, ok, All, All-append,
  Bool-cases, inl, inr, arith, ltb, ◌==◌, ◌≢◌, ℕ_discrete, subst, ◌∙◌, if◌then◌else◌,
}
use inferno_game_server.Session.{State, Send, got, packet, broadcast, send_one, handle_recv}

-- How often a descriptor is sent to.
abbrev pub sends_to : ℕ → List Send → ℕ
sends_to j [] = 0
sends_to j (m ∷ ms) = if m.to == j then suc (sends_to j ms) else sends_to j ms

sends_to-append : (j : ℕ) (a b : List Send) → sends_to j (a ++ b) ≡ sends_to j a + sends_to j b
sends_to-append j [] b = omega arith
sends_to-append j (m ∷ a) b = ground (arith, sends_to-append j a b)

abbrev pub is_recipient : ℕ → ℕ → (ℕ → Bool) → ℕ → Bool
is_recipient conn_socket sender_fd set j = set j && (not (j == conn_socket) && not (j == sender_fd))

one_self :
    (conn sender : ℕ) (bytes : List ℕ) (set : ℕ → Bool) (n : ℕ)
    → sends_to n (send_one conn bytes sender set n)
      ≡ (if is_recipient conn sender set n then 1 else 0)
one_self conn sender bytes set n = ground arith

one_stranger :
    (conn sender : ℕ) (bytes : List ℕ) (set : ℕ → Bool) (n j : ℕ)
    → n ≢ j
    → sends_to j (send_one conn bytes sender set n) ≡ 0
one_stranger conn sender bytes set n j ne = ground arith

broadcast_recipients :
    (conn_socket sender_fd : ℕ) (bytes : List ℕ) (set : ℕ → Bool) (n j : ℕ)
    → sends_to j (broadcast conn_socket bytes sender_fd set n)
      ≡ (if ltb j n && is_recipient conn_socket sender_fd set j then 1 else 0)
unfolding broadcast
broadcast_recipients conn sender bytes set zero j = ground arith
broadcast_recipients conn sender bytes set (suc n) j =
    let one = send_one conn bytes sender set n in
    let rest = broadcast_recipients conn sender bytes set n j in
    sends_to-append j (broadcast conn bytes sender set n) one ∙ elim (ℕ_discrete n j) [
      | yes e ↦ rw rest (
          subst
            (λ k.
              (if ltb k n && is_recipient conn sender set k then 1 else 0) + sends_to k one
              ≡ (if ltb k (suc n) && is_recipient conn sender set k then 1 else 0))
            e (rw (one_self conn sender bytes set n) (ground arith)))
      | no ne ↦ rw rest (rw (one_stranger conn sender bytes set n j ne) (ground arith))
    ]

one_bytes :
    (conn sender : ℕ) (bytes : List ℕ) (set : ℕ → Bool) (n : ℕ)
    → All (λ m. m.bytes ≡ bytes) (send_one conn bytes sender set n)
one_bytes conn sender bytes set n = elim (Bool-cases (set n)) [
  | inl e ↦ elim (Bool-cases (not (n == conn) && not (n == sender))) [
    | inl f ↦ rw (e, f) (refl, tt)
    | inr f ↦ rw (e, f) tt
  ]
  | inr e ↦ rw e tt
]

broadcast_bytes :
    (conn sender : ℕ) (bytes : List ℕ) (set : ℕ → Bool) (n : ℕ)
    → All (λ m. m.bytes ≡ bytes) (broadcast conn bytes sender set n)
unfolding broadcast
broadcast_bytes conn sender bytes set zero = tt
broadcast_bytes conn sender bytes set (suc n) =
    All-append (λ (m : Send). m.bytes ≡ bytes) (broadcast conn bytes sender set n) _
      (broadcast_bytes conn sender bytes set n) (one_bytes conn sender bytes set n)

-- What a client sends, the first 1024 bytes of it, goes once and whole to each other client whose
-- descriptor is in the set and is smaller than the largest one, and to nobody else: the client of
-- the largest descriptor is left out. Neither the set nor the largest descriptor changes.
pub handle_recv_recipients :
    (conn_socket sender_fd byte : ℕ) (bytes : List ℕ) (s : State)
    → (ms : List Send) × (handle_recv conn_socket sender_fd (got byte bytes) s ≡ ok (s, ms))
      × All (λ m. m.bytes ≡ packet byte bytes) ms
      × ((j : ℕ)
          → sends_to j ms ≡ (
              if ltb j s.max_fd && is_recipient conn_socket sender_fd s.client_set j then 1 else 0))
unfolding handle_recv
handle_recv_recipients conn sender byte bytes s = (
  broadcast conn (packet byte bytes) sender s.client_set s.max_fd,
  refl,
  broadcast_bytes conn sender (packet byte bytes) s.client_set s.max_fd,
  λ j. broadcast_recipients conn sender (packet byte bytes) s.client_set s.max_fd j,
)
