-- ===== src/Sockets/Shorts.antt =====
-- Strings and shorts over UDP (Sockets/Unreliable_UDP_Socket.cxx).
use inferno_game_server.Base.{ℕ, ◌/◌, ◌%◌, ◌≡◌, subst, List, [], ◌∷◌, ◌++◌, some, ok, arith, take}
use inferno_game_server.Base.Int.{ℤ, pos, negsuc}
use inferno_game_server.Sockets.{recv_short, send_short, send_str, sent_all, short_of}

sent_all-ok : (v : ℤ) (buffer bytes : List ℕ) → sent_all v buffer ≡ ok bytes → buffer ≡ bytes
sent_all-ok (negsuc n) buffer bytes h = cc
sent_all-ok (pos n) buffer bytes h = ground arith

-- A short that goes out whole is received as the same short, whatever comes behind it in the datagram.
pub recv_short-send_short :
    (sendto : List ℕ → ℤ) (n : ℕ) (bytes tail : List ℕ)
    → send_short sendto n ≡ ok bytes
    → recv_short (some (bytes ++ tail)) ≡ ok n
unfolding send_short send_str recv_short
recv_short-send_short sendto n bytes tail h =
    let same = sent_all-ok (sendto (n / 256 ∷ n % 256 ∷ [])) _ bytes h in
    subst (λ bs. short_of (take 2 (bs ++ tail)) ≡ ok n) same (ground arith)
