-- ===== src/LoginServer/Reaping.antt =====
-- The children of `start` that have exited, and the handler of SIGCHLD that CollectsAt them
-- (LoginServer.cxx).
use inferno_game_server.Base.{ℕ, zero, suc, Bool, true, false}

-- Where the parent is: in its own code, in the loop of `handle_sigchild`, or behind it. The argument is
-- the local `last_error`.
pub data Place : Type 0 where
  serving : Place
  reaping restoring : ℕ → Place

-- The parent, and what the system keeps for it: how many children run, how many have exited and are not
-- waited for, and whether a SIGCHLD is pending. The signal does not queue, and is blocked in its handler.
pub record Parent : Type 0 where
  pub running : ℕ
  pub zombies : ℕ
  pub pending : Bool
  pub place : Place
  pub errno : ℕ

abbrev pub echild : ℕ
echild = 10

-- errno after a waitpid that gives no child: it is an error if there is none at all.
abbrev pub waited : ℕ → ℕ → ℕ
waited zero e = echild
waited (suc n) e = e

-- What comes between two steps of the service loop.
pub data Interrupt : Parent → Parent → Type 0 where
  -- `exit(0)` of a child, or its end by a fault
  exit :
      (n z : ℕ) (b : Bool) (p : Place) (e : ℕ)
      → Interrupt
          (record { running = suc n; zombies = z; pending = b; place = p; errno = e })
          (record { running = n; zombies = suc z; pending = true; place = p; errno = e })
  -- int last_error = errno;
  deliver :
      (n z e : ℕ)
      → Interrupt
          (record { running = n; zombies = z; pending = true; place = serving; errno = e })
          (record { running = n; zombies = z; pending = false; place = reaping e; errno = e })
  -- while(waitpid(-1, NULL, WNOHANG) > 0);
  reap :
      (n z : ℕ) (b : Bool) (l e : ℕ)
      → Interrupt
          (record { running = n; zombies = suc z; pending = b; place = reaping l; errno = e })
          (record { running = n; zombies = z; pending = b; place = reaping l; errno = e })
  stop :
      (n : ℕ) (b : Bool) (l e : ℕ)
      → Interrupt
          (record { running = n; zombies = 0; pending = b; place = reaping l; errno = e })
          (record {
            running = n;
            zombies = 0;
            pending = b;
            place = restoring l;
            errno = waited n e;
          })
  -- errno = last_error;
  restore :
      (n z : ℕ) (b : Bool) (l e : ℕ)
      → Interrupt
          (record { running = n; zombies = z; pending = b; place = restoring l; errno = e })
          (record { running = n; zombies = z; pending = b; place = serving; errno = l })

-- Steps of the service loop: `fork`, and calls that fail.
pub data Service : Parent → Parent → Type 0 where
  fork :
      (n z : ℕ) (b : Bool) (e : ℕ)
      → Service
          (record { running = n; zombies = z; pending = b; place = serving; errno = e })
          (record { running = suc n; zombies = z; pending = b; place = serving; errno = e })
  fail :
      (n z : ℕ) (b : Bool) (e e' : ℕ)
      → Service
          (record { running = n; zombies = z; pending = b; place = serving; errno = e })
          (record { running = n; zombies = z; pending = b; place = serving; errno = e' })

-- Interrupts, and how many.
pub data Interrupts (s : Parent) : ℕ → Parent → Type 0 where
  none_yet : Interrupts s 0 s
  then : {n : ℕ} {t u : Parent} → Interrupts s n t → Interrupt t u → Interrupts s (suc n) u

-- The parent as it installs the handler.
abbrev pub installed : ℕ → Parent
installed e = record { running = 0; zombies = 0; pending = false; place = serving; errno = e }

pub data Reachable : Parent → Type 0 where
  start : (e : ℕ) → Reachable (installed e)
  interrupted : {s t : Parent} → Reachable s → Interrupt s t → Reachable t
  served : {s t : Parent} → Reachable s → Service s t → Reachable t
