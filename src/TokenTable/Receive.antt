-- ===== src/TokenTable/Receive.antt =====
-- `receive_new` (GameServer/ChatServer/ChatServer.cxx) asks `recvfrom` for `strlen(buffer)` bytes of a
-- buffer that it has just cleared.
use inferno_game_server.Base.{
  ℕ, zero, suc, ◌≡◌, ◌≢◌, ◌⊎◌, refl, sym, ◌∙◌, inl, inr, Bool, true, false, List, [], ◌∷◌, Option,
  none, some, Option-cases, ok, err, >>=-eq-ok, or_err, arith, take, drop,
}
use mathlib.Core.Option
use inferno_game_server.Base.Bytes.{c_string, strlen, clear}
use inferno_game_server.TokenTable.{
  undefined, Table, Datagram, admit, last_recvfrom, receive_loop, receive_new,
}

-- Logins of one name with the empty token, at the times of the datagrams.
unfoldable pub admit_all : List ℕ → List Datagram → Table → Table
admit_all name [] t = t
admit_all name (d ∷ ds) t = admit_all name ds (admit name [] d.tv t)

not_zero : (o : Option ℕ) → Option.map suc o ≢ some 0
not_zero none = λ e. cc
not_zero (some n) = λ e. cc

pub clear-strlen : (s : List ℕ) {n : ℕ} → strlen s ≡ some n → (r : List ℕ) × (clear n s ≡ 0 ∷ r)
unfolding clear strlen
clear-strlen [] h = cc
clear-strlen (zero ∷ s) {n = zero} h = (s, refl)
clear-strlen (suc c ∷ s) {n = zero} h = ground (arith, not_zero (strlen s))
clear-strlen (c ∷ s) {n = suc n} h = (clear n s, refl)

pub loop_of_cleared :
    (r name : List ℕ) (ds : List Datagram) (fails : Bool) (t : Table)
    → c_string (take 21 (drop 64 (0 ∷ r))) ≡ some name
    → receive_loop (0 ∷ r) ds fails t ≡ last_recvfrom fails (admit_all name ds t)
unfolding receive_loop admit_all
loop_of_cleared r name [] fails t h = refl
loop_of_cleared r name (d ∷ ds) fails t h =
    rw h (loop_of_cleared r name ds fails (admit name [] d.tv t) h)

loop_unnamed :
    (r : List ℕ) (d : Datagram) (ds : List Datagram) (fails : Bool) (t : Table)
    → c_string (take 21 (drop 64 (0 ∷ r))) ≡ none
    → receive_loop (0 ∷ r) (d ∷ ds) fails t ≡ err undefined
unfolding receive_loop
loop_unnamed r d ds fails t h = rw h

last_recvfrom-ok : (fails : Bool) (a b : Table) → last_recvfrom fails a ≡ ok b → b ≡ a
last_recvfrom-ok true a b e = cc
last_recvfrom-ok false a b e = cc

loop_cases :
    (r : List ℕ) (ds : List Datagram) (fails : Bool) (t t' : Table)
    → receive_loop (0 ∷ r) ds fails t ≡ ok t'
    → ((ds ≡ []) × (t' ≡ t))
      ⊎ ((name : List ℕ) × (c_string (take 21 (drop 64 (0 ∷ r))) ≡ some name)
          × (t' ≡ admit_all name ds t))
unfolding receive_loop
loop_cases r [] fails t t' h = inl (refl, last_recvfrom-ok fails t t' h)
loop_cases r (d ∷ ds) fails t t' h = elim (Option-cases (c_string (take 21 (drop 64 (0 ∷ r))))) [
  | inl e ↦ cc (loop_unnamed r d ds fails t e, h)
  | inr (name, e) ↦
      inr
        (name, e, last_recvfrom-ok fails _ t' (sym (loop_of_cleared r name (d ∷ ds) fails t e) ∙ h))
]

or_err-eq-ok : {A : Type 0} (o : Option A) {a : A} → or_err undefined o ≡ ok a → o ≡ some a
or_err-eq-ok none h = cc
or_err-eq-ok (some b) h = cc

-- Whatever the login server sends, and whatever the arrays held: if `receive_new` returns, then either
-- no datagram came and the table is as it was, or each datagram was recorded, at its own time, with the
-- empty token and one and the same name, which is what the array held of old behind its first 64 bytes.
pub receive_new_ignores_bytes :
    (buffer token_buffer uname_buffer : List ℕ) (ds : List Datagram) (fails : Bool) (t t' : Table)
    → receive_new buffer token_buffer uname_buffer ds fails t ≡ ok t'
    → ((ds ≡ []) × (t' ≡ t))
      ⊎ ((n : ℕ) × (name : List ℕ) × (strlen buffer ≡ some n)
          × (c_string (take 21 (drop 64 (clear n buffer))) ≡ some name)
          × (t' ≡ admit_all name ds t))
unfolding receive_new
receive_new_ignores_bytes buffer token_buffer uname_buffer ds fails t t' h =
    let (n, h1, e) = >>=-eq-ok (or_err undefined (strlen buffer)) _ h in
    let (_, h2, _) = >>=-eq-ok (or_err undefined (strlen token_buffer)) _ h1 in
    let (_, h3, _) = >>=-eq-ok (or_err undefined (strlen uname_buffer)) _ h2 in
    let known = or_err-eq-ok (strlen buffer) e in
    let (r, c) = clear-strlen buffer known in
    let cases = loop_cases r ds fails t t' (rw c at h3) in
    elim cases [ inl a ↦ inl a | inr (name, f, g) ↦ inr (n, name, known, rw c f, g) ]
