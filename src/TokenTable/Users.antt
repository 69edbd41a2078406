-- ===== src/TokenTable/Users.antt =====
-- The map `current_users` (GameServer/ChatServer/ChatServer.cxx): lookups after `insert` and `erase`.
use inferno_game_server.Base.{ℕ, ◌≡◌, List, [], ◌∷◌, Option, none, some, arith, if◌then◌else◌}
use inferno_game_server.Base.Bytes.{same, same_iff}
use inferno_game_server.TokenTable.{User, find, insert, erase}

-- The first of two results that there is.
abbrev pub or_else {ℓ} : {A : Type ℓ} → Option A → Option A → Option A
or_else none b = b
or_else (some a) b = some a

pub find-erase :
    (name gone : List ℕ) (us : List User)
    → find name (erase gone us) ≡ (if same gone name then none else find name us)
unfolding find erase
find-erase name gone [] = ground arith
find-erase name gone (u ∷ us) = ground (
  arith,
  find-erase name gone us,
  same_iff u.username gone,
  same_iff u.username name,
  same_iff gone name,
)

pub find-insert :
    (name : List ℕ) (v : User) (us : List User)
    → find name (insert v us)
      ≡ or_else (find name us) (if same v.username name then some v.token else none)
unfolding find insert
find-insert name v [] = ground arith
find-insert name v (u ∷ us) = ground (
  arith,
  find-insert name v us,
  same_iff u.username v.username,
  same_iff u.username name,
  same_iff v.username name,
)
