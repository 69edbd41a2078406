-- ===== src/TokenTable/Login.antt =====
-- What one packet of the login server does to the table (the loop body of `receive_new`,
-- GameServer/ChatServer/ChatServer.cxx).
use inferno_game_server.Base.{
  ℕ, ◌+◌, ◌*◌, ◌≤◌, ◌≡◌, ◌||◌, List, [], ◌∷◌, ◌++◌, none, some, arith, All, All-append,
  if◌then◌else◌,
}
use inferno_game_server.Base.Bytes.{same}
use inferno_game_server.TokenTable.{Expiry, Table, Timeval, find, micros, admit}
use inferno_game_server.TokenTable.Users.{or_else, find-insert}
use inferno_game_server.TokenTable.Scrub.{listed, IsOrdered, IsConsistent}

listed-append :
    (name : List ℕ) (es : List Expiry) (e : Expiry)
    → listed name (es ++ e ∷ []) ≡ (listed name es || same e.username name)
unfolding listed
listed-append name [] e = ground arith
listed-append name (f ∷ es) e = ground (arith, listed-append name es e)

IsOrdered-append :
    (es : List Expiry) (e : Expiry)
    → IsOrdered es
    → All (λ f. f.time ≤ e.time) es
    → IsOrdered (es ++ e ∷ [])
IsOrdered-append [] e h k = (tt, tt)
IsOrdered-append (f ∷ es) e h k =
    (All-append _ es (e ∷ []) h.0 (k.0, tt), IsOrdered-append es e h.1 k.1)

-- A login on a consistent table, at a time when no expiry lies more than five minutes ahead, leaves the
-- table consistent. The user is then known: by the token just sent, if the user was not known before,
-- and otherwise still by the old one; other users are untouched.
pub admit-IsConsistent :
    (username token : List ℕ) (tv : Timeval) (t : Table)
    → IsConsistent t
    → All (λ e. e.time ≤ 300000000 + micros tv) t.expiry
    → let t' = admit username token tv t in
      IsConsistent t'
      × ((name : List ℕ)
          → find name t'.current_users
            ≡ or_else (find name t.current_users) (if same username name then some token else none))
unfolding admit
admit-IsConsistent username token tv t c h = (
  record {
    covered = λ name tok q. ground (
      arith,
      find-insert name (record { username = username; token = token }) t.current_users,
      listed-append name t.expiry
          (record { username = username; time = 300 * 1000000 + micros tv }),
      c.covered name tok,
    );
    ordered = IsOrdered-append t.expiry _ c.ordered h;
  },
  λ name. find-insert name (record { username = username; token = token }) t.current_users,
)
