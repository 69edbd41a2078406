-- ===== src/LoginServer/Closing.antt =====
-- The destructor of the login server and who runs it, and the log of refused connections (LoginServer.cxx,
-- launcher.cxx).
use inferno_game_server.Base.{
  ℕ, ◌<◌, ◌≡◌, ◌↔◌, ◌⊎◌, inl, inr, refl, ap, ◌∙◌, Bool, true, false, List, [], ◌∷◌, Option, none,
  some, Option-cases, ◌==◌, if◌then◌else◌,
}
use inferno_game_server.LoginServer.Handler.{Action}
use inferno_game_server.LoginServer.Requests.{
  Client, Server, Accept, refused, accepted, unforked, End, exits, leaves_loop, faulted, serve,
  rounds, get_request_type,
}
use inferno_game_server.LoginServer.Children.{children, rounds-children, serve_leaves_loop}

-- What the members of the object hold: descriptors, the log file, and the session `con` with the database.
pub record ServerMembers : Type 0 where
  pub sock : Option ℕ
  pub logfile : Bool
  pub con : Bool
  pub chat_sock : Option ℕ
  pub match_sock : Option ℕ

-- `LoginServer::~LoginServer`
unfoldable pub destroyed_server : ServerMembers → ServerMembers
destroyed_server m = record m { sock = none; logfile = false; con = false }

-- What a child does to the members of the parent by its end: `exit` destroys no object of `main`, but a
-- child that leaves the loop returns from `start` and then from `main`. The session is one for all, since
-- a forked child has its parent's connection.
unfoldable pub finished : End → ServerMembers → ServerMembers
unfolding destroyed_server
finished exits m = m
finished leaves_loop m = record m { con = (destroyed_server m).con }
finished (faulted e) m = m

unfoldable pub all_finished : List (End × List Action) → ServerMembers → ServerMembers
unfolding finished
all_finished [] m = m
all_finished ((e, log) ∷ served) m = all_finished served (finished e m)

abbrev af_inet : ℕ
af_inet = 2

abbrev af_inet6 : ℕ
af_inet6 = 10

-- `log_connection_error`: whether it says that the addressing protocol is unknown; of a known protocol it
-- says nothing.
unfoldable pub log_connection_error : ℕ → Bool
log_connection_error sa_family =
    if sa_family == af_inet then false else if sa_family == af_inet6 then false else true

-- A client whose child returns from `main`: its request does not come, its acknowledgement fails, or it
-- sends 65535.
abbrev pub Leaves : Client → Type 0
Leaves c = (c.arrival.recv ≡ none) ⊎ (c.arrival.send_ack ≡ false) ⊎ (c.arrival.recv ≡ some 65535)

abbrev pub IsShort : Client → Type 0
IsShort c = (code : ℕ) → c.arrival.recv ≡ some code → code < 65536

abbrev pub SomeLeaves : List Accept → Type 0
SomeLeaves [] = ⊥
SomeLeaves (refused ∷ as') = SomeLeaves as'
SomeLeaves (unforked fd ∷ as') = SomeLeaves as'
SomeLeaves (accepted fd c ∷ as') = Leaves c ⊎ SomeLeaves as'

abbrev pub AllShort : List Accept → Type 0
AllShort [] = Unit
AllShort (refused ∷ as') = AllShort as'
AllShort (unforked fd ∷ as') = AllShort as'
AllShort (accepted fd c ∷ as') = IsShort c × AllShort as'

unreceived_leaves : (s : Server) (c : Client) → c.arrival.recv ≡ none → (serve s c).0 ≡ leaves_loop
unfolding serve get_request_type
unreceived_leaves s c h = rw h refl

to_Leaves :
    (c : Client) (code : ℕ)
    → c.arrival.recv ≡ some code
    → (c.arrival.send_ack ≡ false) ⊎ (code ≡ 65535)
    → Leaves c
to_Leaves c code h (inl a) = inr (inl a)
to_Leaves c code h (inr q) = inr (inr (h ∙ ap some q))

of_Leaves :
    (c : Client) (code : ℕ)
    → c.arrival.recv ≡ some code
    → Leaves c
    → (c.arrival.send_ack ≡ false) ⊎ (code ≡ 65535)
of_Leaves c code h (inl n) = absurd (cc (h, n))
of_Leaves c code h (inr (inl a)) = inl a
of_Leaves c code h (inr (inr q)) = inr cc

serve-Leaves : (s : Server) (c : Client) → IsShort c → ((serve s c).0 ≡ leaves_loop) ↔ Leaves c
serve-Leaves s c short = elim (Option-cases c.arrival.recv) [
  | inl h ↦ (λ e. inl h, λ l. unreceived_leaves s c h)
  | inr (code, h) ↦
      let leaves = serve_leaves_loop s c code h (short code h) in
      (λ e. to_Leaves c code h (leaves.0 e), λ l. leaves.1 (of_Leaves c code h l))
]

finished-con :
    (e : End) (m : ServerMembers) → (finished e m).con ≡ false → (e ≡ leaves_loop) ⊎ (m.con ≡ false)
unfolding finished
finished-con exits m h = inr h
finished-con leaves_loop m h = inl refl
finished-con (faulted f) m h = inr h

finished-closed : (e : End) (m : ServerMembers) → m.con ≡ false → (finished e m).con ≡ false
unfolding finished destroyed_server
finished-closed exits m h = h
finished-closed leaves_loop m h = refl
finished-closed (faulted f) m h = h

stays_closed :
    (served : List (End × List Action)) (m : ServerMembers)
    → m.con ≡ false
    → (all_finished served m).con ≡ false
unfolding all_finished
stays_closed [] m h = h
stays_closed ((e, log) ∷ served) m h = stays_closed served (finished e m) (finished-closed e m h)

left-con : (e : End) (m : ServerMembers) → e ≡ leaves_loop → (finished e m).con ≡ false
unfolding finished destroyed_server
left-con e m h = rw h refl

children_lose :
    (s : Server) (as' : List Accept) (m : ServerMembers)
    → AllShort as'
    → (all_finished (children s as') m).con ≡ false
    → SomeLeaves as' ⊎ (m.con ≡ false)
unfolding all_finished
children_lose s [] m short h = inr h
children_lose s (refused ∷ as') m short h = children_lose s as' m short h
children_lose s (unforked fd ∷ as') m short h = children_lose s as' m short h
children_lose s (accepted fd c ∷ as') m short h =
    elim (children_lose s as' (finished (serve s c).0 m) short.1 h) [
      | inl later ↦ inl (inr later)
      | inr closed ↦ elim (finished-con (serve s c).0 m closed) [
        | inl e ↦ inl (inl ((serve-Leaves s c short.0).0 e))
        | inr before ↦ inr before
      ]
    ]

lose_children :
    (s : Server) (as' : List Accept) (m : ServerMembers)
    → AllShort as'
    → SomeLeaves as'
    → (all_finished (children s as') m).con ≡ false
unfolding all_finished
lose_children s [] m short l = absurd l
lose_children s (refused ∷ as') m short l = lose_children s as' m short l
lose_children s (unforked fd ∷ as') m short l = lose_children s as' m short l
lose_children s (accepted fd c ∷ as') m short (inl l) =
    stays_closed (children s as') (finished (serve s c).0 m)
      (left-con (serve s c).0 m ((serve-Leaves s c short.0).1 l))
lose_children s (accepted fd c ∷ as') m short (inr l) =
    lose_children s as' (finished (serve s c).0 m) short.1 l

-- One client can take the database from all. After any connections with requests of 16 bits, the session
-- with the database that the children share is closed if and only if in one of them the request did not
-- come, or its acknowledgement failed, or the code was 65535: that child returns through `main`, whose
-- destructor deletes the connection.
pub session_closed :
    (s : Server) (as' : List Accept) (m : ServerMembers)
    → AllShort as'
    → m.con ≡ true
    → ((all_finished (rounds s as').1 m).con ≡ false) ↔ SomeLeaves as'
session_closed s as' m short connected = rw (rounds-children s as') (
  λ h. elim (children_lose s as' m short h) [ inl l ↦ l | inr closed ↦ cc (connected, closed) ],
  lose_children s as' m short,
)
