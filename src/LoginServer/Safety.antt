-- ===== src/LoginServer/Safety.antt =====
-- A token is for those who know the password (`login_user`, LoginServer.cxx).
use inferno_game_server.Base.{
  ℕ, suc, Bool, true, false, ◌+◌, ◌<◌, ◌≡◌, ◌⊎◌, inl, inr, refl, ap, List, [], ◌∷◌, ◌++◌, Option,
  none, some, Option-cases, Bool-cases, Result, ok, err, arith,
}
use inferno_game_server.Base.Bytes.{same, same→eq, c_string}
use inferno_game_server.LoginServer.Handler.{
  Action, Fault, locked, unlocked, assigned, sent_short, wrote, inserted, cleaned_up, Handler,
  continue, ◌>>=◌, from, terminated,
}
use inferno_game_server.LoginServer.Login.{
  Request, query, lookup_user, check_password, authenticate, login_user,
}
use inferno_game_server.LoginServer.Access.{
  received, received_name, received_password, opening, accept_secure-cases, login_user-lookup,
  authenticate-check,
}

-- How many strings were written to the client.
abbrev pub tokens : List Action → ℕ
tokens [] = 0
tokens (wrote s ∷ log) = suc (tokens log)
tokens (locked ∷ log) = tokens log
tokens (unlocked ∷ log) = tokens log
tokens (assigned n ∷ log) = tokens log
tokens (sent_short n ∷ log) = tokens log
tokens (cleaned_up ∷ log) = tokens log
tokens (inserted u h ∷ log) = tokens log

tokens-append : (a b : List Action) → tokens (a ++ b) ≡ tokens a + tokens b
tokens-append [] b = omega arith
tokens-append (wrote s ∷ a) b = omega (arith, tokens-append a b)
tokens-append (locked ∷ a) b = tokens-append a b
tokens-append (unlocked ∷ a) b = tokens-append a b
tokens-append (assigned n ∷ a) b = tokens-append a b
tokens-append (sent_short n ∷ a) b = tokens-append a b
tokens-append (cleaned_up ∷ a) b = tokens-append a b
tokens-append (inserted u h ∷ a) b = tokens-append a b

-- Without a C string the handler ends there.
unreceived :
    {A : Type 0} (res : Result Fault (List ℕ)) (log : List Action) (k : List ℕ → Handler A)
    → received res ≡ none
    → (continue (from res log) (λ b. terminated (c_string b) >>= k)).1 ≡ log
unreceived (ok b) log k h = rw h
unreceived (err e) log k h = refl

authenticate_needs :
    (r : Request) (stored : List ℕ) (log : List Action)
    → (tokens (authenticate r stored log).1 ≡ tokens log)
      ⊎ ((password : List ℕ) × (received_password r ≡ some password)
          × (r.hash_sha_256 password ≡ stored))
unfolding authenticate check_password
authenticate_needs r stored log = elim (Option-cases (received_password r)) [
  | inl e ↦ inl (ap tokens (unreceived _ log _ e))
  | inr (password, e) ↦ elim (Bool-cases (same (r.hash_sha_256 password) stored)) [
    | inl right ↦ inr (password, e, same→eq _ _ right)
    | inr wrong ↦ inl (
        rw (authenticate-check r stored password log e)
          (rw wrong (omega (arith, tokens-append log (sent_short 1 ∷ [])))))
  ]
]

lookup-needs :
    (r : Request) (throws : Bool) (row : Option (List ℕ)) (log : List Action)
    → (tokens (continue (lookup_user throws row log) (authenticate r)).1 ≡ tokens log)
      ⊎ ((stored password : List ℕ) × (row ≡ some stored)
          × (received_password r ≡ some password)
          × (r.hash_sha_256 password ≡ stored))
unfolding lookup_user
lookup-needs r true row log = inl refl
lookup-needs r false none log = inl (omega (arith, tokens-append log (sent_short 1 ∷ [])))
lookup-needs r false (some stored) log =
    elim (authenticate_needs r stored (log ++ sent_short 0 ∷ [])) [
      | inl same_log ↦ inl (omega (arith, tokens-append log (sent_short 0 ∷ []), same_log))
      | inr (password, p, q) ↦ inr (stored, password, refl, p, q)
    ]

login-needs :
    (r : Request) (port : ℕ)
    → (tokens (login_user r port []).1 ≡ 0)
      ⊎ ((uname stored password : List ℕ) × (received_name r ≡ some uname)
          × (r.execute_query (query uname) ≡ some stored)
          × (received_password r ≡ some password)
          × (r.hash_sha_256 password ≡ stored))
unfolding login_user
login-needs r port = elim (accept_secure-cases r.connection port) [
  | inr closed ↦ inl (rw closed)
  | inl (o, opened) ↦ elim (Option-cases (received_name r)) [
    | inl e ↦ inl (rw opened (ap tokens (unreceived _ (opening port) _ e)))
    | inr (uname, e) ↦
        elim (lookup-needs r (r.query_throws (query uname)) (r.execute_query (query uname))
          (opening port)) [
            | inl same_log ↦ inl (rw (login_user-lookup r port uname o e) same_log)
            | inr (stored, password, a, b, c) ↦ inr (uname, stored, password, e, a, b, c)
          ]
  ]
]

-- A token is written to the client only if the database has a row for the name that came, and the
-- password that came has the hash that the row holds.
pub login_user_needs_password :
    (r : Request) (port : ℕ)
    → 0 < tokens (login_user r port []).1
    → (uname stored password : List ℕ) × (received_name r ≡ some uname)
      × (r.execute_query (query uname) ≡ some stored)
      × (received_password r ≡ some password)
      × (r.hash_sha_256 password ≡ stored)
login_user_needs_password r port h = elim (login-needs r port) [
  | inl none_written ↦ absurd (omega (arith, none_written))
  | inr found ↦ found
]
