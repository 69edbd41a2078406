-- ===== src/TokenTable/Accounts.antt =====
-- What the table of the chat server means for one user (GameServer/ChatServer/ChatServer.cxx): each user
-- has an account of its own, which the logins and scrubs of others do not touch.
use mathlib.Core.List.{append-nil}
use inferno_game_server.Base.{
  ℕ, ◌+◌, ◌*◌, ◌≤◌, ◌≡◌, ◌∙◌, refl, ap, sym, fun_ext, Bool, false, ◌||◌, List, [], ◌∷◌, ◌++◌,
  Option, none, some, ok, >>=-eq-ok, arith, ltb, All, All-append, if◌then◌else◌,
}
use inferno_game_server.Base.Bytes.{same}
use inferno_game_server.TokenTable.{
  User, Expiry, Table, Timeval, empty, find, micros, admit, scrub_list,
}
use inferno_game_server.TokenTable.Users.{or_else, find-insert}
use inferno_game_server.TokenTable.Scrub.{
  expired, IsOrdered, IsConsistent, Scrubs, stop, drop, scrub-Scrubs, later,
  scrub_list_drops_expired,
}
use inferno_game_server.TokenTable.Login.{admit-IsConsistent}
use inferno_game_server.TokenTable.History.{
  Event, login, scrubbed, step, run, IsTimed, Bounded, Bounded-mono, scrub-Bounded,
  empty-IsConsistent,
}

-- The token of a user who is known, and the times at which the user is to be forgotten.
pub record Account : Type 0 where
  pub token : Option (List ℕ)
  pub deadlines : List ℕ

abbrev pub any_passed : ℕ → List ℕ → Bool
any_passed now [] = false
any_passed now (d ∷ ds) = ltb d now || any_passed now ds

abbrev pub upcoming : ℕ → List ℕ → List ℕ
upcoming now [] = []
upcoming now (d ∷ ds) = if ltb d now then upcoming now ds else d ∷ upcoming now ds

-- A login gives a token to a user who has none, and a deadline in five minutes. At a scrub a user of
-- whom a deadline has passed is forgotten.
abbrev pub account_step : List ℕ → Event → Account → Account
account_step name (login username token tv) a =
    if same username name
    then record {
      token = or_else a.token (some token);
      deadlines = a.deadlines ++ (300000000 + micros tv) ∷ [];
    }
    else a
account_step name (scrubbed tv) a = record {
  token = if any_passed (micros tv) a.deadlines then none else a.token;
  deadlines = upcoming (micros tv) a.deadlines;
}

-- The specification: a book of accounts, one for each name there could be.
abbrev pub Book : Type 0
Book = List ℕ → Account

abbrev pub replay : List Event → Book → Book
replay [] b = b
replay (e ∷ es) b = replay es (λ name. account_step name e (b name))

abbrev pub blank : Book
blank name = record { token = none; deadlines = [] }

abbrev pub times : List ℕ → List Expiry → List ℕ
times name [] = []
times name (e ∷ es) = if same e.username name then e.time ∷ times name es else times name es

-- What a table says of each name.
abbrev pub book : Table → Book
book t name = record { token = find name t.current_users; deadlines = times name t.expiry }

times-append :
    (name : List ℕ) (es : List Expiry) (e : Expiry)
    → times name (es ++ e ∷ [])
      ≡ times name es ++ (if same e.username name then e.time ∷ [] else [])
times-append name [] e = refl
times-append name (f ∷ es) e = ground (arith, times-append name es e)

expired-times :
    (now : ℕ) (name : List ℕ) (es : List Expiry)
    → expired now name es ≡ any_passed now (times name es)
unfolding expired
expired-times now name [] = refl
expired-times now name (e ∷ es) = ground (arith, expired-times now name es)

upcoming-unexpired :
    (now : ℕ) (name : List ℕ) (es : List Expiry)
    → All (λ e. now ≤ e.time) es
    → upcoming now (times name es) ≡ times name es
upcoming-unexpired now name [] h = refl
upcoming-unexpired now name (e ∷ es) h = ground (arith, upcoming-unexpired now name es h.1)

Scrubs-times :
    (now : ℕ) (t : Table) {us : List User} {es : List Expiry} (name : List ℕ)
    → Scrubs now t us es
    → IsOrdered es
    → times name t.expiry ≡ upcoming now (times name es)
Scrubs-times now t name (stop {es = es} e new q) h =
    ground (arith, q, upcoming-unexpired now name es (later now e.time es new h.0))
Scrubs-times now t name (drop {es = es} e old r) h = ground (arith, Scrubs-times now t name r h.1)

book-admit :
    (username token : List ℕ) (tv : Timeval) (t : Table) (name : List ℕ)
    → book (admit username token tv t) name
      ≡ account_step name (login username token tv) (book t name)
unfolding admit
book-admit username token tv t name =
    let v : User = record { username = username; token = token } in
    ground (
      arith,
      find-insert name v t.current_users,
      times-append name t.expiry (record { username = username; time = 300 * 1000000 + micros tv }),
      append-nil (times name t.expiry),
    )

book-scrub :
    (tv : Timeval) (t t' : Table) (name : List ℕ)
    → IsConsistent t
    → scrub_list tv t ≡ ok t'
    → book t' name ≡ account_step name (scrubbed tv) (book t name)
unfolding scrub_list
book-scrub tv t t' name c h =
    let found = (scrub_list_drops_expired tv t t' c h).2 name in
    let r = scrub-Scrubs (micros tv) t.current_users t.expiry t' h in
    let passed = expired-times (micros tv) name t.expiry in
    let left = Scrubs-times (micros tv) t' name r c.ordered in
    λ i. record {
      token = (found ∙ ap (λ p. if p then none else find name t.current_users) passed) i;
      deadlines = left i;
    }

run-replay :
    (es : List Event) (now : ℕ) (t t' : Table)
    → IsTimed now es
    → Bounded now t
    → IsConsistent t
    → run es t ≡ ok t'
    → book t' ≡ replay es (book t)
unfolding run step micros
run-replay [] now t t' timed b c h = ap book (sym (cc))
run-replay (login u k tv ∷ es) now t t' timed b c h =
    let b' = Bounded-mono now (micros tv) t.expiry timed.0 b in
    run-replay es (micros tv) (admit u k tv t) t' timed.1
      (unfold admit in
        All-append (λ (e : Expiry). e.time ≤ 300000000 + micros tv) t.expiry _ b' (omega arith, tt))
      (admit-IsConsistent u k tv t c b').0 h
    ∙ ap (replay es) (fun_ext λ name. book-admit u k tv t name)
run-replay (scrubbed tv ∷ es) now t t' timed b c h =
    let (m, k, e) = >>=-eq-ok (scrub_list tv t) (run es) h in
    run-replay es (micros tv) m t' timed.1
      (scrub-Bounded (micros tv) _ t.current_users t.expiry m
        (Bounded-mono now (micros tv) t.expiry timed.0 b) (unfold scrub_list in e))
      (scrub_list_drops_expired tv t m c e).0 k
    ∙ ap (replay es) (fun_ext λ name. book-scrub tv t m name c e)

-- The table implements the book of accounts: from the empty table, after any history of logins and scrubs
-- under a clock that does not go back, and in which no scrub was undefined, the table says of every name
-- what the replay of that history on the blank book says. In it the events of one name touch no other.
pub run_refines :
    (es : List Event) (t : Table) → IsTimed 0 es → run es empty ≡ ok t → book t ≡ replay es blank
unfolding empty find
run_refines es t timed h = run-replay es 0 empty t timed tt empty-IsConsistent h
