-- ===== src/Session/Launch.antt =====
-- The constructors of a session, `start` with the main loop behind it (Session.cxx), and `main`
-- (launcher.cxx).
use inferno_game_server.Base.{
  ℕ, suc, ◌≡◌, ◌≢◌, refl, ap, sym, ◌∙◌, Bool, true, false, ◌&&◌, List, [], Option, none, some,
  Result, ok, err, if◌then◌else◌,
}
use inferno_game_server.Listeners
use inferno_game_server.Listeners.{Address, Setup, initialize}
use inferno_game_server.Listeners.Usable.{
  Verdict, usable, unusable, judged, first, last_fd, is_usable, sock_after,
}
use inferno_game_server.Listeners.FirstUsable.{initialize_refines, start-initialize}
use inferno_game_server.Session.{
  Clients, State, Send, Stop, select_failed, blocked, ran_out, World, fd_set, enter_main_loop,
}

-- `logs` is whether `logfile` is an open file. The constants are of type unsigned int.
pub record Members : Type 0 where
  pub id : ℕ
  pub max_clients : ℕ
  pub team_size : ℕ
  pub clients : Clients
  pub client_set : ℕ → Bool
  pub logs : Bool

-- The constructor with two lists: the session, and the count of sessions afterwards.
unfoldable pub session_of : ℕ → ℕ → ℕ → List ℕ → List ℕ → Bool → Members × ℕ
session_of count max_clients team_size red_clients blue_clients fopen = (
  record {
    id = count;
    max_clients = max_clients;
    team_size = team_size;
    clients = record { red_clients = red_clients; blue_clients = blue_clients };
    client_set = λ i. false;
    logs = fopen;
  },
  suc count,
)

-- The constructor without: it sets neither `logfile` nor the sets, whose memory is an argument.
unfoldable pub session : ℕ → ℕ → ℕ → (ℕ → Bool) → Members × ℕ
session count max_clients team_size memory = (
  record {
    id = count;
    max_clients = max_clients;
    team_size = team_size;
    clients = record { red_clients = []; blue_clients = [] };
    client_set = memory;
    logs = false;
  },
  suc count,
)

-- How a session ends, if it does: it returns after a message in its log, or its loop is where the
-- passes given leave it. `undefined` is a message to a log that is not open.
pub data Course : Type 0 where
  returns undefined : Course
  loops : Result Stop (State × List Send) → Course

abbrev pub logged : Bool → Course
logged true = returns
logged false = undefined

abbrev pub after_loop : Bool → Result Stop (State × List Send) → Course
after_loop logs (ok r) = loops (ok r)
after_loop logs (err select_failed) = logged logs
after_loop logs (err blocked) = loops (err blocked)
after_loop logs (err ran_out) = loops (err ran_out)

abbrev pub enter : Members → List World → Option ℕ → Course
enter m ws none = undefined
enter m ws (some conn_socket) = after_loop m.logs (
    enter_main_loop conn_socket ws
      (record { max_fd = conn_socket; client_set = fd_set conn_socket m.client_set }))

unfoldable pub run_session : Members → Option (List Address) → Bool → Option ℕ → List World → Course
unfolding Listeners.start
run_session m info listens stack ws =
    let s = Listeners.start info listens stack in
    if s.result then enter m ws s.sock else logged m.logs

-- `main` of the chat server.
unfoldable pub launch : (ℕ → Bool) → Option (List Address) → Bool → Option ℕ → List World → Course
unfolding run_session session
launch memory info listens stack ws = run_session (session 0 6 3 memory).0 info listens stack ws

-- What a session with an open log does where its socket is found, and where not.
abbrev pub course_of : Members → List World → Bool → Option Verdict → Course
course_of m ws listens none = logged m.logs
course_of m ws listens (some (unusable fd)) = logged m.logs
course_of m ws listens (some (usable fd)) = if listens then enter m ws (some fd) else logged m.logs

verdict-course :
    (m : Members) (ws : List World) (listens : Bool) (v : Option Verdict) (last : Option ℕ)
    → (if is_usable v && listens then enter m ws (sock_after v last) else logged m.logs)
      ≡ course_of m ws listens v
verdict-course m ws listens none last = refl
verdict-course m ws listens (some (unusable fd)) last = refl
verdict-course m ws listens (some (usable fd)) last = refl

run-course :
    (m : Members) (addresses : List Address) (listens : Bool) (stack : Option ℕ) (ws : List World)
    → run_session m (some addresses) listens stack ws
      ≡ course_of m ws listens (first (λ a. judged a.fd a.reusable a.takes) addresses)
unfolding run_session
run-course m addresses listens stack ws =
    let v = first (λ a. judged a.fd a.reusable a.takes) addresses in
    let i = initialize_refines addresses stack in
    ap (λ (s : Setup). if s.result then enter m ws s.sock else logged m.logs)
      (start-initialize (some addresses) listens stack)
    ∙ (ap
          (λ b.
            if b && listens
            then enter m ws (initialize (some addresses) stack).sock
            else logged m.logs)
          i.result
        ∙ (ap (λ s. if is_usable v && listens then enter m ws s else logged m.logs) i.sock
            ∙ verdict-course m ws listens v (last_fd addresses stack)))

after_loop-unlogged : (r : Result Stop (State × List Send)) → after_loop false r ≢ returns
after_loop-unlogged (ok r) e = cc
after_loop-unlogged (err select_failed) e = cc
after_loop-unlogged (err blocked) e = cc
after_loop-unlogged (err ran_out) e = cc

undefined_other : undefined ≢ returns
undefined_other e = cc

course-unlogged :
    (memory : ℕ → Bool) (ws : List World) (listens : Bool) (v : Option Verdict)
    → course_of (session 0 6 3 memory).0 ws listens v ≢ returns
unfolding session
course-unlogged memory ws listens none = undefined_other
course-unlogged memory ws listens (some (unusable fd)) = undefined_other
course-unlogged memory ws false (some (usable fd)) = undefined_other
course-unlogged memory ws true (some (usable fd)) =
    after_loop-unlogged
      (enter_main_loop fd ws (record { max_fd = fd; client_set = fd_set fd memory }))

-- Let getaddrinfo give addresses. A session enters its loop exactly if one of them can be used, with its
-- socket, and `listen` succeeds; else it returns after a message in its log, or is undefined if that is not
-- open. And the session that `main` makes, whose log is not open, never returns, whatever its uninitialised
-- set of clients holds.
pub session_course :
    (m : Members) (addresses : List Address) (listens : Bool) (stack : Option ℕ) (ws : List World)
    → (run_session m (some addresses) listens stack ws
        ≡ course_of m ws listens (first (λ a. judged a.fd a.reusable a.takes) addresses))
      × ((memory : ℕ → Bool) → launch memory (some addresses) listens stack ws ≢ returns)
unfolding launch
session_course m addresses listens stack ws = (
  run-course m addresses listens stack ws,
  λ memory e.
      course-unlogged memory ws listens (first (λ a. judged a.fd a.reusable a.takes) addresses)
        (sym (run-course (session 0 6 3 memory).0 addresses listens stack ws) ∙ e),
)
