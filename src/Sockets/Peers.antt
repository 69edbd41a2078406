-- ===== src/Sockets/Peers.antt =====
-- Whom a UDP socket answers (Sockets/Unreliable_UDP_Socket.cxx): the address that the last
-- `recvfrom` stored.
use inferno_game_server.Base.{
  ℕ, ◌≤◌, ◌≡◌, refl, List, [], ◌∷◌, ◌++◌, Option, none, some, Result, ok, err, ◌>>=◌, ltb,
  ltb-false, arith, take, length, All, if◌then◌else◌,
}
use inferno_game_server.Base.Int.{ℤ}
use inferno_game_server.Base.Bytes.{overlay}
use inferno_game_server.Base.Arrays.{take-all, take_fits, overlay-whole}
use inferno_game_server.Sockets.{Errorcode, receive_exception, undefined, recv_str, send_str}

-- The 16 bytes of `last_addr`, and `last_addrlen`, which the constructor of a server leaves as it was.
pub record Peer : Type 0 where
  pub last_addr : List ℕ
  pub last_addrlen : ℕ

-- `recvfrom` stores as many bytes of the sender's address as `last_addrlen` allows, and then the
-- address's own length there.
unfoldable pub remember : List ℕ → Peer → Result Errorcode Peer
unfolding overlay
remember addr p =
    let stored = take p.last_addrlen addr in
    if ltb 16 (length stored)
    then err undefined
    else ok (record { last_addr = overlay stored p.last_addr; last_addrlen = length addr })

-- The address that `sendto` is given.
unfoldable pub destination : Peer → Result Errorcode (List ℕ)
destination p =
    if ltb 16 p.last_addrlen then err undefined else ok (take p.last_addrlen p.last_addr)

-- A datagram and its sender's address, or none where `recvfrom` returns -1.
unfoldable pub recv_str_from :
    ℕ → Option (List ℕ × List ℕ) → List ℕ → Peer → Result Errorcode ((List ℕ × ℕ) × Peer)
unfolding remember recv_str
recv_str_from buf_size none buffer p = err receive_exception
recv_str_from buf_size (some (bytes, addr)) buffer p = do
  p' ← remember addr p
  r ← recv_str buf_size (some bytes) buffer
  ok (r, p')

unfoldable pub send_str_to :
    (List ℕ → List ℕ → ℤ) → List ℕ → Peer → Result Errorcode (List ℕ × List ℕ)
unfolding destination send_str
send_str_to sendto buffer p = do
  addr ← destination p
  bytes ← send_str (sendto addr) buffer
  ok (addr, bytes)

-- Several calls of `recv_str` with one buffer.
unfoldable pub hear : ℕ → List (List ℕ × List ℕ) → List ℕ → Peer → Result Errorcode (List ℕ × Peer)
unfolding recv_str_from
hear buf_size [] buffer p = ok (buffer, p)
hear buf_size (d ∷ ds) buffer p = do
  r ← recv_str_from buf_size (some d) buffer p
  hear buf_size ds r.0.0 r.1

-- There is room for an IPv4 address, of 16 bytes.
abbrev pub IsRoomy : Peer → Type 0
IsRoomy p = (length p.last_addr ≡ 16) × (16 ≤ p.last_addrlen)

abbrev peer_of : List ℕ → Peer
peer_of addr = record { last_addr = addr; last_addrlen = length addr }

remember_whole :
    (addr : List ℕ) (p : Peer) → IsRoomy p → length addr ≡ 16 → remember addr p ≡ ok (peer_of addr)
unfolding remember
remember_whole addr p h l =
    rw
      (
        take-all p.last_addrlen addr (omega (arith, h.1)),
        l,
        overlay-whole addr p.last_addr (omega (arith, h.0)),
      )
      refl

-- `recv_str` of a datagram that came does not fail.
recv_str_comes :
    (buf_size : ℕ) (bytes buffer : List ℕ)
    → recv_str buf_size (some bytes) buffer
      ≡ ok (overlay (take buf_size bytes) buffer, length (take buf_size bytes))
unfolding recv_str
recv_str_comes buf_size bytes buffer =
    rw (ltb-false buf_size (length (take buf_size bytes)) (omega (arith, take_fits buf_size bytes)))
      refl

hears_one :
    (buf_size : ℕ) (bytes addr buffer : List ℕ) (p : Peer)
    → IsRoomy p
    → length addr ≡ 16
    → recv_str_from buf_size (some (bytes, addr)) buffer p
      ≡ ok ((overlay (take buf_size bytes) buffer, length (take buf_size bytes)), peer_of addr)
unfolding recv_str_from
hears_one buf_size bytes addr buffer p h l =
    rw (remember_whole addr p h l, recv_str_comes buf_size bytes buffer) refl

destination-peer_of : (addr : List ℕ) → length addr ≡ 16 → destination (peer_of addr) ≡ ok addr
unfolding destination
destination-peer_of addr l =
    rw (ltb-false 16 (length addr) (omega (arith, l)), take-all (length addr) addr (omega arith))
      refl

-- A socket answers the last sender: with room for an IPv4 address, after any number of datagrams
-- from senders with such addresses, whatever they hold and however small the buffer is, a string is
-- sent to the address that the last of them came from.
pub reply_reaches_sender :
    (buf_size : ℕ) (ds : List (List ℕ × List ℕ)) (bytes addr buffer : List ℕ) (p : Peer)
    → IsRoomy p
    → All (λ d. length d.1 ≡ 16) ds
    → length addr ≡ 16
    → (r : List ℕ × Peer) × (hear buf_size (ds ++ (bytes, addr) ∷ []) buffer p ≡ ok r)
      × ((sendto : List ℕ → List ℕ → ℤ) (text : List ℕ)
          → send_str_to sendto text r.1 ≡ (send_str (sendto addr) text >>= λ out. ok (addr, out)))
unfolding hear send_str_to
reply_reaches_sender buf_size [] bytes addr buffer p h hs l = (
  (overlay (take buf_size bytes) buffer, peer_of addr),
  rw (hears_one buf_size bytes addr buffer p h l) refl,
  λ sendto text. rw (destination-peer_of addr l) refl,
)
reply_reaches_sender buf_size (d ∷ ds) bytes addr buffer p h hs l =
    let next = overlay (take buf_size d.0) buffer in
    let (r, e, f) =
      reply_reaches_sender buf_size ds bytes addr next (peer_of d.1) (hs.0, omega (arith, hs.0))
        hs.1 l in
    (r, rw (hears_one buf_size d.0 d.1 buffer p h hs.0) e, f)
