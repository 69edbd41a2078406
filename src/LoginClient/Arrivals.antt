-- ===== src/LoginClient/Arrivals.antt =====
-- The arrival of a name at the server in a sign-up (LoginServer.cxx), as the client sends it.
use inferno_game_server.Base.{
  ℕ, suc, ◌+◌, ◌%◌, ◌≤◌, ◌<◌, ◌≡◌, refl, List, [], ◌∷◌, arith, length, replicate, ltb-false,
}
use inferno_game_server.Base.Int.{pos, ◌+ℤ◌}
use inferno_game_server.Base.Arrays.{take-all, length-overlay, overlay-whole}
use inferno_game_server.Base.Bytes.{overlay}
use inferno_game_server.Base.Handlers.{done}
use inferno_game_server.LoginServer.Reads.{got, signed16}
use inferno_game_server.LoginServer.Signup.{Timed, timeout, receive_name}
use inferno_game_server.LoginClient.Text.{padded, signed16_small}

receive_name_whole :
    (n t0 t1 : ℕ) (array : List ℕ)
    → n < 16
    → length array ≡ 16
    → t1 ≤ t0 + timeout
    → receive_name
        (pos (suc n))
        (pos 0)
        t0
        (replicate 16 0)
        (record { read = got array; t1 = t1 } ∷ [])
        []
      ≡ (done array, [])
unfolding receive_name ◌+ℤ◌
receive_name_whole n t0 t1 array h l e =
    rw
      (
        take-all 16 array (omega arith),
        overlay-whole array (replicate 16 0) (omega arith),
        l,
        ltb-false (t0 + timeout) t1 e,
      )
      (ground arith)

receive_name_nothing :
    (t0 : ℕ) (rs : List Timed)
    → receive_name (pos 0) (pos 0) t0 (replicate 16 0) rs [] ≡ (done (padded []), [])
unfolding receive_name ◌+ℤ◌ overlay
receive_name_nothing t0 [] = refl
receive_name_nothing t0 (r ∷ rs) = refl

pub name_arrives :
    (username : List ℕ) (t0 t1 : ℕ)
    → length username < 16
    → t1 ≤ t0 + timeout
    → receive_name
        (signed16 (length username % 65536))
        (pos 0)
        t0
        (replicate 16 0)
        (record { read = got (padded username); t1 = t1 } ∷ [])
        []
      ≡ (done (padded username), [])
name_arrives [] t0 t1 l e = receive_name_nothing t0 _
name_arrives (c ∷ name) t0 t1 l e = rw (signed16_small (length (c ∷ name)) (omega arith)) (
    receive_name_whole (length name) t0 t1 (padded (c ∷ name)) (omega arith)
      (length-overlay (c ∷ name) (replicate 16 0)) e)
