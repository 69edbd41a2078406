-- ===== src/LoginServer/Reads.antt =====
-- The loops that receive a user name and a password (LoginServer.cxx): `login_user`, `signup_user` and
-- `recv_password`. The reads are the results of the calls of `SSL_read` or `recv`, in order; a loop that
-- still waits when they end is blocked.
use inferno_game_server.Base.{
  ℕ, ◌+◌, ◌-◌, List, [], ◌∷◌, ◌++◌, Result, ok, err, ltb, leb, length, take, drop, if◌then◌else◌,
}
use inferno_game_server.Base.Int.{ℤ, pos, negsuc, ◌+ℤ◌, ltb_ℤ}
use inferno_game_server.Base.Bytes.{overlay}
use inferno_game_server.LoginServer.Handler.{Fault, blocked, overflow}

-- `failed` is a call that returns -1.
pub data Read : Type 0 where
  got : List ℕ → Read
  failed : Read

-- The 16 bits that `ntohs` gives, as a short.
abbrev pub signed16 : ℕ → ℤ
signed16 w = if ltb w 32768 then pos w else negsuc (65535 - w)

-- What a call for at most `n` bytes adds to the count.
abbrev pub count : ℕ → Read → ℤ
count n (got bs) = pos (length (take n bs))
count n failed = negsuc 0

-- ... and puts at the start of the array.
abbrev pub deliver : ℕ → Read → List ℕ → List ℕ
deliver n (got bs) s = overlay (take n bs) s
deliver n failed s = s

-- while(bytes_received < namelen) bytes_received += SSL_read(ssl, uname_buffer, sizeof(uname_buffer));
unfoldable pub read_name : ℤ → ℤ → List ℕ → List Read → Result Fault (List ℕ)
unfolding overlay ◌+ℤ◌
read_name namelen total s [] = if ltb_ℤ total namelen then err blocked else ok s
read_name namelen total s (r ∷ rs) =
    let rest = read_name namelen (total +ℤ count 16 r) (deliver 16 r s) rs in
    if ltb_ℤ total namelen then rest else ok s

-- A write of bytes at a place of the array of 64.
unfoldable pub write_at : ℤ → List ℕ → List ℕ → Result Fault (List ℕ)
unfolding overlay
write_at at [] s = ok s
write_at (negsuc n) (b ∷ bs) s = err overflow
write_at (pos n) (b ∷ bs) s =
    if leb (n + length (b ∷ bs)) (length s)
    then ok (take n s ++ overlay (b ∷ bs) (drop n s))
    else err overflow

abbrev pub written : Read → ℤ → List ℕ → Result Fault (List ℕ)
written (got bs) at s = write_at at (take 64 bs) s
written failed at s = ok s

abbrev pub after_write :
    Result Fault (List ℕ) → (List ℕ → Result Fault (List ℕ)) → Result Fault (List ℕ)
after_write (ok s) k = k s
after_write (err e) k = err e

-- while(total_bytes < pass_len) { bytes_read = SSL_read(ssl, buffer + total_bytes, sizeof(buffer));
-- total_bytes += bytes_read; }
unfoldable pub read_password : ℤ → ℤ → List ℕ → List Read → Result Fault (List ℕ)
unfolding write_at ◌+ℤ◌
read_password pass_len total s [] = if ltb_ℤ total pass_len then err blocked else ok s
read_password pass_len total s (r ∷ rs) =
    let rest =
      after_write (written r total s) (λ s'. read_password pass_len (total +ℤ count 64 r) s' rs) in
    if ltb_ℤ total pass_len then rest else ok s
