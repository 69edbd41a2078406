-- ===== src/TokenTable/History.antt =====
-- Any history of logins and scrubs (the loop of `ChatServer::update`, GameServer/ChatServer).
use inferno_game_server.Base.{
  ℕ, ◌+◌, ◌≤◌, ◌≡◌, List, [], ◌∷◌, Result, ok, ◌>>=◌, arith, All, All-append, >>=-eq-ok, Bool-cases,
  inl, inr, subst, ltb,
}
use inferno_game_server.TokenTable.{
  Halt, User, Expiry, Table, Timeval, erase, find, empty, micros, admit, scrub, scrub_list,
}
use inferno_game_server.TokenTable.Scrub.{IsConsistent, scrub_list_drops_expired}
use inferno_game_server.TokenTable.Login.{admit-IsConsistent}

pub data Event : Type 0 where
  login : List ℕ → List ℕ → Timeval → Event
  scrubbed : Timeval → Event

abbrev pub time : Event → ℕ
time (login username token tv) = micros tv
time (scrubbed tv) = micros tv

unfoldable pub step : Event → Table → Result Halt Table
step (login username token tv) t = ok (admit username token tv t)
step (scrubbed tv) t = scrub_list tv t

unfoldable pub run : List Event → Table → Result Halt Table
unfolding step
run [] t = ok t
run (e ∷ es) t = step e t >>= run es

-- The clock does not go back, from `now` on.
abbrev pub IsTimed : ℕ → List Event → Type 0
IsTimed now [] = Unit
IsTimed now (e ∷ es) = (now ≤ time e) × IsTimed (time e) es

-- No expiry lies more than five minutes ahead.
abbrev pub Bounded : ℕ → Table → Type 0
Bounded now t = All (λ e. e.time ≤ 300000000 + now) t.expiry

pub Bounded-mono :
    (a b : ℕ) (es : List Expiry)
    → a ≤ b
    → All (λ e. e.time ≤ 300000000 + a) es
    → All (λ e. e.time ≤ 300000000 + b) es
Bounded-mono a b [] h k = tt
Bounded-mono a b (e ∷ es) h k = (omega arith, Bounded-mono a b es h k.1)

pub scrub-Bounded :
    (now bound : ℕ) (us : List User) (es : List Expiry) (t : Table)
    → All (λ e. e.time ≤ bound) es
    → scrub now us es ≡ ok t
    → All (λ e. e.time ≤ bound) t.expiry
unfolding scrub
scrub-Bounded now bound us [] t h q = cc
scrub-Bounded now bound us (e ∷ es) t h q = elim (Bool-cases (ltb e.time now)) [
  | inl old ↦ scrub-Bounded now bound (erase e.username us) es t h.1 (rw old at q)
  | inr new ↦
      let same : record { current_users = us; expiry = e ∷ es } ≡ t = ground arith in
      subst (λ (t' : Table). All (λ e'. e'.time ≤ bound) t'.expiry) same h
]

run-IsConsistent :
    (es : List Event) (now : ℕ) (t t' : Table)
    → IsTimed now es
    → Bounded now t
    → IsConsistent t
    → run es t ≡ ok t'
    → IsConsistent t'
unfolding run micros
run-IsConsistent [] now t t' timed b c h = subst IsConsistent (cc) c
run-IsConsistent (login u k tv ∷ es) now t t' timed b c h =
    let b' = Bounded-mono now (micros tv) t.expiry timed.0 b in
    run-IsConsistent es (micros tv) (admit u k tv t) t' timed.1
      (unfold admit in
        All-append (λ (e : Expiry). e.time ≤ 300000000 + micros tv) t.expiry _ b' (omega arith, tt))
      (admit-IsConsistent u k tv t c b').0 h
run-IsConsistent (scrubbed tv ∷ es) now t t' timed b c h =
    let (m, k, e) = >>=-eq-ok (scrub_list tv t) (run es) h in
    run-IsConsistent es (micros tv) m t' timed.1
      (scrub-Bounded (micros tv) _ t.current_users t.expiry m
        (Bounded-mono now (micros tv) t.expiry timed.0 b) (unfold scrub_list in e))
      (scrub_list_drops_expired tv t m c e).0 k

pub empty-IsConsistent : IsConsistent empty
unfolding empty find
empty-IsConsistent = record { covered = λ name token q. cc; ordered = tt }

-- From the empty table, after any history of logins and scrubs under a clock that does not go back, the
-- table is consistent, if no scrub was undefined: every user has an expiry, so none stays for ever, and
-- the expiries are in the order of time.
pub history-IsConsistent :
    (es : List Event) (t : Table) → IsTimed 0 es → run es empty ≡ ok t → IsConsistent t
unfolding empty
history-IsConsistent es t timed h = run-IsConsistent es 0 empty t timed tt empty-IsConsistent h
