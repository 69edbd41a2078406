-- ===== src/Listeners/Usable.antt =====
-- What the loops over addresses look for, said without a loop.
use inferno_game_server.Base.{
  ℕ, Bool, true, false, List, [], ◌∷◌, Option, none, some, ◌==◌, if◌then◌else◌,
}
use inferno_game_server.ServerUtils.{Action, opens, closes, frees}
use inferno_game_server.Listeners.{Address}

-- An address that ends the search: by its socket, or because its socket cannot be made reusable.
pub data Verdict : Type 0 where
  usable unusable : ℕ → Verdict

abbrev pub judged : Option ℕ → Bool → Bool → Option Verdict
judged none reusable takes = none
judged (some fd) false takes = some (unusable fd)
judged (some fd) true true = some (usable fd)
judged (some fd) true false = none

-- An address that needs no reuse, and one that needs only a socket.
abbrev pub judged_take : Address → Option Verdict
judged_take a = judged a.fd true a.takes

abbrev pub judged_open : Address → Option Verdict
judged_open a = judged a.fd true true

abbrev pub or_later : Option Verdict → Option Verdict → Option Verdict
or_later none later = later
or_later (some v) later = some v

-- The first address that ends the search.
abbrev pub first : (Address → Option Verdict) → List Address → Option Verdict
first ends [] = none
first ends (a ∷ as') = or_later (ends a) (first ends as')

abbrev pub is_usable : Option Verdict → Bool
is_usable none = false
is_usable (some (usable fd)) = true
is_usable (some (unusable fd)) = false

-- The descriptors that are open after the search.
abbrev pub held : Option Verdict → List ℕ
held none = []
held (some (usable fd)) = fd ∷ []
held (some (unusable fd)) = fd ∷ []

-- The variable after the search, which the last address has set where none ended it.
abbrev pub sock_after : Option Verdict → Option ℕ → Option ℕ
sock_after none last = last
sock_after (some (usable fd)) last = some fd
sock_after (some (unusable fd)) last = some fd

abbrev pub last_fd : List Address → Option ℕ → Option ℕ
last_fd [] sock = sock
last_fd (a ∷ as') sock = last_fd as' a.fd

-- The descriptors that a log leaves open, the last first.
abbrev pub left_open : List Action → List ℕ → List ℕ
left_open [] fds = fds
left_open (opens fd ∷ log) fds = left_open log (fd ∷ fds)
left_open (closes fd ∷ log) [] = left_open log []
left_open (closes fd ∷ log) (f ∷ fds) = left_open log (if f == fd then fds else f ∷ fds)
left_open (frees ∷ log) fds = left_open log fds
