-- ===== src/LoginServer/Zombies.antt =====
-- The handler of SIGCHLD leaves no zombies and no trace, and ends (`handle_sigchild`, LoginServer.cxx).
use inferno_game_server.Base.{
  ℕ, zero, suc, ◌+◌, ◌*◌, ◌≤◌, ◌<◌, ◌≡◌, refl, sym, subst, ◌⊎◌, inl, inr, Bool, true, false, arith,
}
use inferno_game_server.LoginServer.Reaping.{
  Place, serving, reaping, restoring, Parent, Interrupt, exit, deliver, reap, stop, restore,
  Service, fork, fail, Interrupts, none_yet, then, Reachable, start, interrupted, served,
}

-- A child that has exited is collected by this call of the handler, or by the next.
abbrev CollectsAt : Place → Bool → ℕ → Type 0
CollectsAt (reaping l) b z = Unit
CollectsAt serving true z = Unit
CollectsAt serving false z = z ≡ 0
CollectsAt (restoring l) true z = Unit
CollectsAt (restoring l) false z = z ≡ 0

abbrev Collects : Parent → Type 0
Collects s = CollectsAt s.place s.pending s.zombies

CollectsAt-pending : (p : Place) (z : ℕ) → CollectsAt p true z
CollectsAt-pending (reaping l) z = tt
CollectsAt-pending serving z = tt
CollectsAt-pending (restoring l) z = tt

CollectsAt-zero : (p : Place) (b : Bool) → CollectsAt p b 0
CollectsAt-zero (reaping l) b = tt
CollectsAt-zero serving true = tt
CollectsAt-zero serving false = refl
CollectsAt-zero (restoring l) true = tt
CollectsAt-zero (restoring l) false = refl

CollectsAt-serving :
    (l : ℕ) (b : Bool) (z : ℕ) → CollectsAt (restoring l) b z → CollectsAt serving b z
CollectsAt-serving l true z h = tt
CollectsAt-serving l false z h = h

Interrupt-Collects : {s t : Parent} → Interrupt s t → Collects s → Collects t
Interrupt-Collects (exit n z b p e) h = CollectsAt-pending p (suc z)
Interrupt-Collects (deliver n z e) h = tt
Interrupt-Collects (reap n z b l e) h = tt
Interrupt-Collects (stop n b l e) h = CollectsAt-zero (restoring l) b
Interrupt-Collects (restore n z b l e) h = CollectsAt-serving l b z h

Service-Collects : {s t : Parent} → Service s t → Collects s → Collects t
Service-Collects (fork n z b e) h = h
Service-Collects (fail n z b e e') h = h

Reachable-Collects : {s : Parent} → Reachable s → Collects s
Reachable-Collects (start e) = refl
Reachable-Collects (interrupted r st) = Interrupt-Collects st (Reachable-Collects r)
Reachable-Collects (served r st) = Service-Collects st (Reachable-Collects r)

-- No child stays uncollected: in every state that the server can reach, by connections, failing calls,
-- exits and signals in any order, if its own code runs and no SIGCHLD is pending, then every child that
-- has exited has been waited for.
pub no_zombies : {s : Parent} → Reachable s → s.place ≡ serving → s.pending ≡ false → s.zombies ≡ 0
no_zombies {s} r own quiet =
    let h = Reachable-Collects r in
    subst (λ b. CollectsAt serving b s.zombies) quiet
      (subst (λ p. CollectsAt p s.pending s.zombies) own h)

-- The errno of the interrupted code, wherever it is kept.
abbrev Keeps : ℕ → Place → ℕ → Type 0
Keeps e serving now = now ≡ e
Keeps e (reaping l) now = l ≡ e
Keeps e (restoring l) now = l ≡ e

Interrupt-Keeps :
    {s t : Parent} (own : ℕ) → Interrupt s t → Keeps own s.place s.errno → Keeps own t.place t.errno
Interrupt-Keeps own (exit n z b p e) h = h
Interrupt-Keeps own (deliver n z e) h = h
Interrupt-Keeps own (reap n z b l e) h = h
Interrupt-Keeps own (stop n b l e) h = h
Interrupt-Keeps own (restore n z b l e) h = h

Interrupts-Keeps :
    {s t : Parent} {n : ℕ} (own : ℕ)
    → Interrupts s n t
    → Keeps own s.place s.errno
    → Keeps own t.place t.errno
Interrupts-Keeps own none_yet h = h
Interrupts-Keeps own (then r st) h = Interrupt-Keeps own st (Interrupts-Keeps own r h)

-- The service loop does not notice the handler: between two points of its own code with any number of
-- exits and signals between them, errno is the same, though waitpid may set it.
pub sigchild_spares_errno :
    {s t : Parent} {n : ℕ}
    → Interrupts s n t
    → s.place ≡ serving
    → t.place ≡ serving
    → t.errno ≡ s.errno
sigchild_spares_errno {s} {t} r from_own to_own =
    subst (λ p. Keeps s.errno p t.errno) to_own
      (Interrupts-Keeps s.errno r (subst (λ p. Keeps s.errno p s.errno) (sym from_own) refl))

abbrev waiting : Bool → ℕ
waiting true = 3
waiting false = 0

abbrev to_do : Place → ℕ
to_do serving = 0
to_do (reaping l) = 2
to_do (restoring l) = 1

-- How many interrupts there can be before the service loop goes on.
abbrev pub pace : Parent → ℕ
pace s = 5 * s.running + s.zombies + waiting s.pending + to_do s.place

waiting-le : (b : Bool) → waiting b ≤ 3
waiting-le true = omega arith
waiting-le false = omega arith

Interrupt-pace : {s t : Parent} → Interrupt s t → pace t < pace s
Interrupt-pace (exit n z b p e) = omega (arith, waiting-le b)
Interrupt-pace (deliver n z e) = omega arith
Interrupt-pace (reap n z b l e) = omega arith
Interrupt-pace (stop n b l e) = omega arith
Interrupt-pace (restore n z b l e) = omega arith

Interrupts-pace : {s t : Parent} {n : ℕ} → Interrupts s n t → n + pace t ≤ pace s
Interrupts-pace none_yet = omega arith
Interrupts-pace (then r st) = omega (arith, Interrupts-pace r, Interrupt-pace st)

place-Interrupt :
    (n z : ℕ) (b : Bool) (p : Place) (e : ℕ)
    → ((p ≡ serving) × (b ≡ false))
      ⊎ ((t : Parent) × Interrupt
            (record { running = n; zombies = z; pending = b; place = p; errno = e })
            t
          × (t.running ≡ n))
place-Interrupt n z true serving e = inr (_, deliver n z e, refl)
place-Interrupt n z false serving e = inl (refl, refl)
place-Interrupt n zero b (reaping l) e = inr (_, stop n b l e, refl)
place-Interrupt n (suc z) b (reaping l) e = inr (_, reap n z b l e, refl)
place-Interrupt n z b (restoring l) e = inr (_, restore n z b l e, refl)

-- The handler gives the service loop back. From any state there are at most as many interrupts as five for
-- each running child, one for each that has exited, three for a pending signal and two for a call of the
-- handler; and after any of them either the loop's own code runs with no signal pending, or there is a next
-- one that is not the exit of a child.
pub sigchild_ends :
    {s t : Parent} {n : ℕ}
    → Interrupts s n t
    → (n ≤ pace s)
      × (((t.place ≡ serving) × (t.pending ≡ false))
          ⊎ ((u : Parent) × Interrupt t u × (u.running ≡ t.running)))
sigchild_ends {s} {t} r = (
  omega (arith, Interrupts-pace r),
  place-Interrupt t.running t.zombies t.pending t.place t.errno,
)
