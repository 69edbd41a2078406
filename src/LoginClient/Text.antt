-- ===== src/LoginClient/Text.antt =====
-- Names and passwords in the arrays of the login server and of its client (LoginServer.cxx, client.cxx).
use mathlib.Core.List.{append-nil}
use inferno_game_server.Base.{
  ℕ, zero, suc, ◌%◌, ◌≤◌, ◌<◌, ◌≡◌, refl, ap, ◌∙◌, subst, List, [], ◌∷◌, ◌++◌, none, some, ok,
  arith, length, drop, replicate, All,
}
use inferno_game_server.Base.Int.{pos, ◌+ℤ◌}
use inferno_game_server.Base.Arrays.{overlay-drop, take-all, length-overlay, overlay-whole}
use inferno_game_server.Base.Bytes.{c_string, overlay}
use inferno_game_server.LoginServer.Reads.{got, signed16, read_name, read_password}
use inferno_game_server.LoginServer.Access.{received}
use inferno_game_server.LoginServer.Assembly.{read_password_reassembles}

-- Characters of a text that is typed or printed: no NUL.
abbrev pub IsText : List ℕ → Type 0
IsText s = All (λ c. 0 < c) s

c_string-append : (s rest : List ℕ) → IsText s → c_string (s ++ 0 ∷ rest) ≡ some s
unfolding c_string
c_string-append [] rest h = refl
c_string-append (c ∷ s) rest h = ground (arith, c_string-append s rest h.1)

pub c_string_unended : (s : List ℕ) → IsText s → c_string s ≡ none
unfolding c_string
c_string_unended [] h = refl
c_string_unended (c ∷ s) h = ground (arith, c_string_unended s h.1)

drop-replicate : (n m : ℕ) → n < m → (rest : List ℕ) × (drop n (replicate m 0) ≡ 0 ∷ rest)
drop-replicate n zero h = absurd (omega arith)
drop-replicate zero (suc m) h = (replicate m 0, refl)
drop-replicate (suc n) (suc m) h = drop-replicate n m (omega arith)

c_string-padded :
    (s : List ℕ) (m : ℕ)
    → IsText s
    → length s < m
    → c_string (s ++ drop (length s) (replicate m 0)) ≡ some s
c_string-padded s m h l =
    let (rest, e) = drop-replicate (length s) m l in rw e (c_string-append s rest h)

-- The array that `print_name` fills.
abbrev pub padded : List ℕ → List ℕ
padded name = overlay name (replicate 16 0)

pub c_string-padded_name :
    (name : List ℕ) → IsText name → length name < 16 → c_string (padded name) ≡ some name
c_string-padded_name name h l =
    rw (overlay-drop name (replicate 16 0) (omega arith)) (c_string-padded name 16 h l)

pub signed16_small : (n : ℕ) → n < 32768 → signed16 (n % 65536) ≡ pos n
signed16_small n h = ground arith

read_name_whole :
    (n : ℕ) (array : List ℕ)
    → n < 16
    → length array ≡ 16
    → read_name (pos (suc n)) (pos 0) (replicate 16 0) (got array ∷ []) ≡ ok array
unfolding read_name ◌+ℤ◌
read_name_whole n array h l =
    rw (take-all 16 array (omega arith), overlay-whole array (replicate 16 0) (omega arith))
      (ground arith)

received_nothing :
    received (read_name (pos 0) (pos 0) (replicate 16 0) (got (padded []) ∷ [])) ≡ some []
unfolding read_name c_string
received_nothing = refl

-- A name that comes in its array of 16 is received as it was typed.
pub padded_name_arrives :
    (name : List ℕ)
    → IsText name
    → length name < 16
    → received (
        read_name
          (signed16 (length name % 65536))
          (pos 0)
          (replicate 16 0)
          (got (padded name) ∷ []))
      ≡ some name
padded_name_arrives [] h l = received_nothing
padded_name_arrives (c ∷ name) h l = rw (signed16_small (length (c ∷ name)) (omega arith)) (
    rw
      (read_name_whole (length name) (padded (c ∷ name)) (omega arith)
        (length-overlay (c ∷ name) (replicate 16 0)))
      (c_string-padded_name (c ∷ name) h l))

read_whole :
    (bs : List ℕ)
    → 0 < length bs
    → length bs ≤ 64
    → read_password (pos (length bs)) (pos 0) (replicate 64 0) (got bs ∷ [])
      ≡ ok (bs ++ drop (length bs) (replicate 64 0))
read_whole bs p l =
    subst
      (λ t.
        read_password (pos (length t)) (pos 0) (replicate 64 0) (got bs ∷ [])
        ≡ ok (t ++ drop (length t) (replicate 64 0)))
      (append-nil bs)
      (read_password_reassembles (bs ∷ []) ((p, l), tt) (omega (arith, ap length (append-nil bs))))

-- A password that comes in one read is received as it was typed.
pub received_whole :
    (password : List ℕ)
    → IsText password
    → 0 < length password
    → length password < 64
    → received (
        read_password
          (signed16 (length password % 65536))
          (pos 0)
          (replicate 64 0)
          (got password ∷ []))
      ≡ some password
received_whole password h p l =
    rw (signed16_small (length password) (omega arith))
      (rw (read_whole password p (omega arith)) (c_string-padded password 64 h l))

-- A token of 64 characters fills the array of the client.
pub read_token :
    (token : List ℕ)
    → length token ≡ 64
    → read_password (pos 64) (pos 0) (replicate 64 0) (got token ∷ []) ≡ ok token
read_token token l =
    subst
      (λ n.
        read_password (pos n) (pos 0) (replicate 64 0) (got token ∷ [])
        ≡ ok (token ++ drop n (replicate 64 0)))
      l (read_whole token (omega arith) (omega arith))
    ∙ ap ok (append-nil token)
