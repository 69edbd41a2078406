-- ===== src/Listeners/Scans.antt =====
-- A loop over addresses finds the first that ends its search, if each turn does to its address what its
-- search says of it.
use inferno_game_server.Base.{
  ℕ, ◌≡◌, refl, ap, ◌∙◌, List, [], ◌∷◌, ◌++◌, Option, none, some, arith, ◌==◌, if◌then◌else◌,
}
use inferno_game_server.ServerUtils.{Action, opens, closes, frees}
use inferno_game_server.ServerUtils.Frees.{free_count, free_count-append}
use inferno_game_server.Listeners.{
  Address, Turn, continues, breaks, leaves, Exit, ran_out, broke, left, Scan, then_scan,
  scan_addresses,
}
use inferno_game_server.Listeners.Usable.{
  Verdict, usable, unusable, or_later, first, held, sock_after, last_fd, left_open,
}

pub left_open-append :
    (a b : List Action) (fds : List ℕ) → left_open (a ++ b) fds ≡ left_open b (left_open a fds)
left_open-append [] b fds = refl
left_open-append (opens fd ∷ a) b fds = left_open-append a b (fd ∷ fds)
left_open-append (closes fd ∷ a) b [] = left_open-append a b []
left_open-append (closes fd ∷ a) b (f ∷ fds) =
    left_open-append a b (if f == fd then fds else f ∷ fds)
left_open-append (frees ∷ a) b fds = left_open-append a b fds

-- A turn that goes on leaves nothing open; one that ends the search leaves its socket open.
pub data Fits : Option Verdict → Option ℕ → Turn → Type 0 where
  goes_on :
      {fd : Option ℕ} {log : List Action}
      → ((fds : List ℕ) → left_open log fds ≡ fds)
      → free_count log ≡ 0
      → Fits none fd (continues log)
  finds :
      {n : ℕ} {log : List Action}
      → left_open log [] ≡ n ∷ []
      → free_count log ≡ 0
      → Fits (some (usable n)) (some n) (breaks log)
  gives_up :
      {n : ℕ} {log : List Action}
      → left_open log [] ≡ n ∷ []
      → free_count log ≡ 0
      → Fits (some (unusable n)) (some n) (leaves log)

abbrev pub exit_of : Option Verdict → Exit
exit_of none = ran_out
exit_of (some (usable fd)) = broke
exit_of (some (unusable fd)) = left

pub record Meets (s : Scan) (v : Option Verdict) (last : Option ℕ) : Type 0 where
  pub exit : s.exit ≡ exit_of v
  pub sock : s.sock ≡ sock_after v last
  pub opened : left_open s.log [] ≡ held v
  pub unfreed : free_count s.log ≡ 0

then_scan-Meets :
    (v later : Option Verdict) (fd last : Option ℕ) (turn : Turn) (rest : Scan)
    → Fits v fd turn
    → Meets rest later last
    → Meets (then_scan turn fd rest) (or_later v later) last
then_scan-Meets v later fd last turn rest (goes_on {log = log} o f) m = record {
  exit = m.exit;
  sock = m.sock;
  opened = left_open-append log rest.log [] ∙ (ap (left_open rest.log) (o []) ∙ m.opened);
  unfreed = omega (arith, free_count-append log rest.log, f, m.unfreed);
}
then_scan-Meets v later fd last turn rest (finds o f) m = record {
  exit = refl;
  sock = refl;
  opened = o;
  unfreed = f;
}
then_scan-Meets v later fd last turn rest (gives_up o f) m = record {
  exit = refl;
  sock = refl;
  opened = o;
  unfreed = f;
}

module _ (turn : Address → Turn) (ends : Address → Option Verdict)
    (fits : (a : Address) → Fits (ends a) a.fd (turn a)) where
  pub scan_addresses-Meets :
      (as' : List Address) (sock : Option ℕ)
      → Meets (scan_addresses turn as' sock) (first ends as') (last_fd as' sock)
  unfolding scan_addresses
  scan_addresses-Meets [] sock = record { exit = refl; sock = refl; opened = refl; unfreed = refl }
  scan_addresses-Meets (a ∷ as') sock =
      then_scan-Meets (ends a) (first ends as') a.fd (last_fd as' a.fd) (turn a)
        (scan_addresses turn as' a.fd) (fits a) (scan_addresses-Meets as' a.fd)
