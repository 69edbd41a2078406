-- ===== src/LoginServer/Inserts.antt =====
-- Which rows a child of the login server inserts, whatever its client sends (LoginServer.cxx).
use inferno_game_server.Base.{
  ℕ, suc, ◌≡◌, refl, ap, ◌∙◌, ◌⊎◌, inl, inr, zero, Bool, true, false, List, [], ◌∷◌, ◌++◌, Option,
  none, some, Result, ok, err, if◌then◌else◌, replicate,
}
use inferno_game_server.Base.Int.{ℤ, pos, negsuc, ◌+ℤ◌}
use inferno_game_server.LoginServer.Handler.{
  Action, Fault, Outcome, done, returned, fault, locked, unlocked, assigned, sent_short, wrote,
  inserted, cleaned_up, Handler, continue, ◌>>=◌, ◌>>◌, pure, act, return, stop, require, from,
  terminated,
}
use inferno_game_server.LoginServer.Secure.{Connection, accept_secure}
use inferno_game_server.LoginServer.Reads.{count, deliver}
use inferno_game_server.LoginServer.Login.{
  Request, lookup_user, check_password, authenticated, authenticate, login_user, random_string,
}
use inferno_game_server.LoginServer.Signup.{
  Registration, Timed, is_late, complain, receive_name, recv_password, insert_row, signup_user,
}
use inferno_game_server.LoginServer.Requests.{
  Client, Server, serve, dispatch, get_request_type, ended, request_type,
}

-- A row of the table `credentials`.
pub record Row : Type 0 where
  pub username : List ℕ
  pub password_hash : List ℕ

abbrev pub row_of : Action → List Row
row_of (inserted u h) = record { username = u; password_hash = h } ∷ []
row_of locked = []
row_of unlocked = []
row_of (assigned n) = []
row_of (sent_short n) = []
row_of (wrote t) = []
row_of cleaned_up = []

-- The rows that a log inserts, in order.
abbrev pub rows : List Action → List Row
rows [] = []
rows (a ∷ log) = row_of a ++ rows log

rows-add : (log : List Action) (a : Action) → row_of a ≡ [] → rows (log ++ a ∷ []) ≡ rows log
rows-add [] a h = rw h refl
rows-add (b ∷ log) a h = ap (λ l. row_of b ++ l) (rows-add log a h)

rows-insert :
    (log : List Action) (u h : List ℕ)
    → rows log ≡ []
    → rows (log ++ inserted u h ∷ []) ≡ record { username = u; password_hash = h } ∷ []
rows-insert [] u h e = refl
rows-insert (inserted v k ∷ log) u h e = cc
rows-insert (locked ∷ log) u h e = rows-insert log u h e
rows-insert (unlocked ∷ log) u h e = rows-insert log u h e
rows-insert (assigned n ∷ log) u h e = rows-insert log u h e
rows-insert (sent_short n ∷ log) u h e = rows-insert log u h e
rows-insert (wrote t ∷ log) u h e = rows-insert log u h e
rows-insert (cleaned_up ∷ log) u h e = rows-insert log u h e

-- A handler that inserts nothing.
pub record IsQuiet {A : Type 0} (m : Handler A) : Type 0 where
  pub at : (log : List Action) → rows (m log).1 ≡ rows log

module _ {A : Type 0} where
  pure-IsQuiet : (a : A) → IsQuiet (pure a)
  pure-IsQuiet a = record { at = λ log. refl }

  return-IsQuiet : (b : Bool) → IsQuiet {A = A} (return b)
  return-IsQuiet b = record { at = λ log. refl }

  stop-IsQuiet : (e : Fault) → IsQuiet {A = A} (stop e)
  stop-IsQuiet e = record { at = λ log. refl }

  from-IsQuiet : (r : Result Fault A) → IsQuiet (from r)
  from-IsQuiet (ok a) = record { at = λ log. refl }
  from-IsQuiet (err e) = record { at = λ log. refl }

  if-IsQuiet : (b : Bool) (m k : Handler A) → IsQuiet m → IsQuiet k → IsQuiet (if b then m else k)
  if-IsQuiet true m k h g = h
  if-IsQuiet false m k h g = g

act-IsQuiet : (a : Action) → row_of a ≡ [] → IsQuiet (act a)
act-IsQuiet a h = record { at = λ log. rows-add log a h }

require-IsQuiet : (b : Bool) → IsQuiet (require b)
require-IsQuiet true = record { at = λ log. refl }
require-IsQuiet false = record { at = λ log. refl }

terminated-IsQuiet : (s : Option (List ℕ)) → IsQuiet (terminated s)
terminated-IsQuiet none = record { at = λ log. refl }
terminated-IsQuiet (some s) = record { at = λ log. refl }

module _ {A B : Type 0} where
  continue-rows :
      (k : A → Handler B)
      → ((a : A) → IsQuiet (k a))
      → (r : Outcome A × List Action) → rows (continue r k).1 ≡ rows r.1
  continue-rows k h (done a, log) = (h a).at log
  continue-rows k h (returned b, log) = refl
  continue-rows k h (fault e, log) = refl

  >>=-IsQuiet :
      (m : Handler A) (k : A → Handler B)
      → IsQuiet m
      → ((a : A) → IsQuiet (k a))
      → IsQuiet (m >>= k)
  >>=-IsQuiet m k h g = record { at = λ log. continue-rows k g (m log) ∙ h.at log }

ruleset quiet = (
  pure-IsQuiet, return-IsQuiet, stop-IsQuiet, from-IsQuiet, act-IsQuiet, require-IsQuiet,
  terminated-IsQuiet, >>=-IsQuiet, if-IsQuiet, refl,
)

accept_secure-IsQuiet : (c : Connection) (port : ℕ) → IsQuiet (accept_secure c port)
unfolding accept_secure
accept_secure-IsQuiet c port = search (quiet) depth 60

lookup_user-IsQuiet : (throws : Bool) (row : Option (List ℕ)) → IsQuiet (lookup_user throws row)
unfolding lookup_user
lookup_user-IsQuiet true row = search (quiet)
lookup_user-IsQuiet false none = search (quiet)
lookup_user-IsQuiet false (some hash) = search (quiet)

check_password-IsQuiet : (b : Bool) → IsQuiet (check_password b)
unfolding check_password
check_password-IsQuiet true = search (quiet)
check_password-IsQuiet false = search (quiet)

random_string-IsQuiet : (s : Option (List ℕ)) → IsQuiet (random_string s)
random_string-IsQuiet none = search (quiet)
random_string-IsQuiet (some s) = search (quiet)

authenticated-IsQuiet : (r : Request) → IsQuiet (authenticated r)
unfolding authenticated
authenticated-IsQuiet r = search (quiet, random_string-IsQuiet) depth 40

authenticate-IsQuiet : (r : Request) (hash : List ℕ) → IsQuiet (authenticate r hash)
unfolding authenticate
authenticate-IsQuiet r hash = search (quiet, check_password-IsQuiet, authenticated-IsQuiet) depth 40

pub login_user-IsQuiet : (r : Request) (port : ℕ) → IsQuiet (login_user r port)
unfolding login_user
login_user-IsQuiet r port =
    search (quiet, accept_secure-IsQuiet, lookup_user-IsQuiet, authenticate-IsQuiet) depth 40

complain-IsQuiet : (b : Bool) → IsQuiet (complain b)
complain-IsQuiet true = search (quiet)
complain-IsQuiet false = search (quiet)

receive_name-IsQuiet :
    (namelen total : ℤ) (t0 : ℕ) (s : List ℕ) (rs : List Timed)
    → IsQuiet (receive_name namelen total t0 s rs)
unfolding receive_name
receive_name-IsQuiet namelen total t0 s [] = search (quiet)
receive_name-IsQuiet namelen total t0 s (r ∷ rs) =
    if-IsQuiet _ _ _
      (>>=-IsQuiet _ _ (complain-IsQuiet (is_late t0 r))
        (λ _. receive_name-IsQuiet namelen (total +ℤ count 16 r.read) t0 (deliver 16 r.read s) rs))
      (pure-IsQuiet s)

recv_password-IsQuiet : (r : Registration) (port : ℕ) → IsQuiet (recv_password r port)
unfolding recv_password
recv_password-IsQuiet r port = search (quiet, accept_secure-IsQuiet) depth 40

-- At most one row, and that one accepted by the database.
abbrev pub Commits : (List ℕ → List ℕ → Bool) → List Row → Type 0
Commits execute rs =
    (rs ≡ []) ⊎ ((row : Row) × (rs ≡ row ∷ []) × (execute row.username row.password_hash ≡ true))

record IsCommit (execute : List ℕ → List ℕ → Bool) {A : Type 0} (m : Handler A) : Type 0 where
  at : (log : List Action) → rows log ≡ [] → Commits execute (rows (m log).1)

module _ {A B : Type 0} (execute : List ℕ → List ℕ → Bool) where
  continue-Commits :
      (k : A → Handler B)
      → ((a : A) → IsCommit execute (k a))
      → (r : Outcome A × List Action) → rows r.1 ≡ []
      → Commits execute (rows (continue r k).1)
  continue-Commits k h (done a, log) e = (h a).at log e
  continue-Commits k h (returned b, log) e = inl e
  continue-Commits k h (fault f, log) e = inl e

  >>=-IsCommit :
      (m : Handler A) (k : A → Handler B)
      → IsQuiet m
      → ((a : A) → IsCommit execute (k a))
      → IsCommit execute (m >>= k)
  >>=-IsCommit m k q h = record { at = λ log e. continue-Commits k h (m log) (q.at log ∙ e) }

abbrev told : ℕ → Handler (Unit {0})
told code = do act (sent_short code); return true

insert-IsCommit :
    (execute : List ℕ → List ℕ → Bool) (u h : List ℕ) (b : Bool)
    → execute u h ≡ b
    → IsCommit execute (insert_row u h b >>= told)
insert-IsCommit execute u h true e = record {
  at = λ log q. inr (
    record { username = u; password_hash = h },
    rows-add (log ++ inserted u h ∷ []) (sent_short 0) refl ∙ rows-insert log u h q,
    e,
  );
}
insert-IsCommit execute u h false e = record {
  at = λ log q. inl (rows-add log (sent_short 1) refl ∙ q);
}

signup_user-IsCommit : (r : Registration) (port : ℕ) → IsCommit r.execute (signup_user r port)
unfolding signup_user
signup_user-IsCommit r port =
    >>=-IsCommit r.execute _ _ (receive_name-IsQuiet _ _ r.t0 (replicate 16 0) r.name_reads) (λ b.
      >>=-IsCommit r.execute _ _ (terminated-IsQuiet _) (λ u.
        >>=-IsCommit r.execute _ _ (recv_password-IsQuiet r port) (λ p.
          >>=-IsCommit r.execute _ _ (terminated-IsQuiet _)
            (λ w. insert-IsCommit r.execute u (r.hash_sha_256 w) _ refl))))

ended-log : (o : Outcome (Unit {0}) × List Action) → (ended o).1 ≡ o.1
ended-log (done a, log) = refl
ended-log (returned r, log) = refl
ended-log (fault e, log) = refl

dispatch-Commits :
    (code : ℤ) (s : Server) (c : Client) (log : List Action)
    → rows log ≡ []
    → Commits c.registration.execute (rows (dispatch code s c log).1)
dispatch-Commits (pos zero) s c log e = inl (
    ap rows (ended-log (login_user c.request s.next_login_port log))
    ∙ ((login_user-IsQuiet c.request s.next_login_port).at log ∙ e))
dispatch-Commits (pos (suc zero)) s c log e =
    rw (ended-log (signup_user c.registration s.next_registration_port log))
      ((signup_user-IsCommit c.registration s.next_registration_port).at log e)
dispatch-Commits (pos (suc (suc n))) s c log e = inl e
dispatch-Commits (negsuc zero) s c log e = inl e
dispatch-Commits (negsuc (suc n)) s c log e = inl e

request_type-rows : (b : Bool) (code : Option ℕ) → rows (request_type b code).1 ≡ []
request_type-rows b none = refl
request_type-rows b (some code) = refl

-- Whatever its client sends, a child inserts at most one row, and one that the database accepted.
pub serve-Commits : (s : Server) (c : Client) → Commits c.registration.execute (rows (serve s c).1)
unfolding serve get_request_type
serve-Commits s c =
    let (code, log) = request_type c.arrival.send_ack c.arrival.recv in
    dispatch-Commits code s c log (request_type-rows c.arrival.send_ack c.arrival.recv)
