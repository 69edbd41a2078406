-- ===== src/LoginServer/Children.antt =====
-- What the children of the service loop are given (`start`, LoginServer.cxx).
use inferno_game_server.Base.{
  ℕ, zero, suc, ◌<◌, ◌≡◌, ◌≢◌, ◌⊎◌, Bool, subst, ◌↔◌, inl, refl, true, false, List, [], ◌∷◌, some,
  arith,
}
use inferno_game_server.Base.Int.{ℤ, pos, negsuc}
use inferno_game_server.LoginServer.Handler.{Action, Outcome, done, returned, fault}
use inferno_game_server.LoginServer.Login.{login_user}
use inferno_game_server.LoginServer.Signup.{signup_user}
use inferno_game_server.LoginServer.Requests.{
  Client, Server, Accept, refused, accepted, unforked, End, leaves_loop, dispatch, serve, round,
  rounds, get_request_type, ended, acknowledged, request_type,
}

-- The children of all accepted connections, each on the state that the loop began with.
abbrev pub children : Server → List Accept → List (End × List Action)
children s [] = []
children s (refused ∷ as') = children s as'
children s (unforked fd ∷ as') = children s as'
children s (accepted fd c ∷ as') = serve s c ∷ children s as'

-- The connections that the parent still holds, the last first.
abbrev pub held : List Accept → List ℕ → List ℕ
held [] fds = fds
held (refused ∷ as') fds = held as' fds
held (unforked fd ∷ as') fds = held as' (fd ∷ fds)
held (accepted fd c ∷ as') fds = held as' (fd ∷ fds)

dispatch-conns :
    (code : ℤ) (s : Server) (c : Client) (log : List Action) (fds : List ℕ)
    → dispatch code (record s { open_conns = fds }) c log ≡ dispatch code s c log
dispatch-conns (pos zero) s c log fds = refl
dispatch-conns (pos (suc zero)) s c log fds = refl
dispatch-conns (pos (suc (suc n))) s c log fds = refl
dispatch-conns (negsuc zero) s c log fds = refl
dispatch-conns (negsuc (suc n)) s c log fds = refl

serve-conns :
    (s : Server) (c : Client) (fds : List ℕ) → serve (record s { open_conns = fds }) c ≡ serve s c
unfolding serve
serve-conns s c fds =
    dispatch-conns (get_request_type c.arrival).0 s c (get_request_type c.arrival).1 fds

children-conns :
    (s : Server) (as' : List Accept) (fds : List ℕ)
    → children (record s { open_conns = fds }) as' ≡ children s as'
children-conns s [] fds = refl
children-conns s (refused ∷ as') fds = children-conns s as' fds
children-conns s (unforked fd ∷ as') fds = children-conns s as' fds
children-conns s (accepted fd c ∷ as') fds = rw (serve-conns s c fds, children-conns s as' fds)

-- However many clients come, every child that is forked is served with the ports that the parent
-- started with: what a child assigns is lost with it. The parent's state gains the descriptor of
-- each accepted connection, and none of them is closed again.
pub rounds-children :
    (s : Server) (as' : List Accept)
    → rounds s as' ≡ (record s { open_conns = held as' s.open_conns }, children s as')
unfolding rounds round
rounds-children s [] = refl
rounds-children s (refused ∷ as') = rw (rounds-children s as')
rounds-children s (unforked fd ∷ as') = rw (
  rounds-children (record s { open_conns = fd ∷ s.open_conns }) as',
  children-conns s as' (fd ∷ s.open_conns),
)
rounds-children s (accepted fd c ∷ as') = rw (
  rounds-children (record s { open_conns = fd ∷ s.open_conns }) as',
  children-conns s as' (fd ∷ s.open_conns),
)

ended_stays : (o : Outcome (Unit {0}) × List Action) → (ended o).0 ≢ leaves_loop
ended_stays (done a, log) = λ e. cc
ended_stays (returned r, log) = λ e. cc
ended_stays (fault f, log) = λ e. cc

dispatch-leaves :
    (code : ℤ) (s : Server) (c : Client) (log : List Action)
    → ((dispatch code s c log).0 ≡ leaves_loop) ↔ (code ≡ negsuc 0)
dispatch-leaves (pos zero) s c log =
    (λ e. absurd (ended_stays (login_user c.request s.next_login_port log) e), λ e. cc)
dispatch-leaves (pos (suc zero)) s c log =
    (λ e. absurd (ended_stays (signup_user c.registration s.next_registration_port log) e), λ e. cc)
dispatch-leaves (pos (suc (suc n))) s c log = (λ e. cc, λ e. cc)
dispatch-leaves (negsuc zero) s c log = (λ e. refl, λ e. refl)
dispatch-leaves (negsuc (suc n)) s c log = (λ e. cc, λ e. cc)

acknowledged-minus_one :
    (send_ack : Bool) (code : ℕ)
    → code < 65536
    → (acknowledged send_ack code ≡ negsuc 0) ↔ ((send_ack ≡ false) ⊎ (code ≡ 65535))
acknowledged-minus_one true code h = ground arith
acknowledged-minus_one false code h = (λ e. inl refl, λ e. refl)

-- A child whose request came leaves the service loop by its parent's path exactly if the acknowledgement
-- fails, or the request is the code 65535, which reads as the -1 of an error.
pub serve_leaves_loop :
    (s : Server) (c : Client) (code : ℕ)
    → c.arrival.recv ≡ some code
    → code < 65536
    → ((serve s c).0 ≡ leaves_loop) ↔ ((c.arrival.send_ack ≡ false) ⊎ (code ≡ 65535))
unfolding serve get_request_type
serve_leaves_loop s c code came h =
    let log = (get_request_type c.arrival).1 in
    let leaves = dispatch-leaves (get_request_type c.arrival).0 s c log in
    let minus_one = acknowledged-minus_one c.arrival.send_ack code h in
    (
      λ e.
          minus_one.0
            (subst (λ q. (request_type c.arrival.send_ack q).0 ≡ negsuc 0) came (leaves.0 e)),
      λ e. leaves.1 (rw came (minus_one.1 e)),
    )
