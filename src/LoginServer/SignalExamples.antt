-- ===== src/LoginServer/SignalExamples.antt =====
-- The theorems about the handler of SIGCHLD on a child that exits.
use inferno_game_server.Base.{ℕ, ◌≤◌, ◌≡◌, ◌⊎◌, refl, false}
use inferno_game_server.LoginServer.Reaping.{
  serving, Parent, Interrupt, exit, deliver, reap, stop, restore, fork, Interrupts, none_yet, then,
  Reachable, start, interrupted, served, waited,
}
use inferno_game_server.LoginServer.Zombies.{no_zombies, sigchild_spares_errno, pace, sigchild_ends}

abbrev forked : Parent
forked = record { running = 1; zombies = 0; pending = false; place = serving; errno = 4 }

abbrev collected : Parent
collected = record { running = 0; zombies = 0; pending = false; place = serving; errno = 4 }

forked-Reachable : Reachable forked
forked-Reachable = served (start 4) (fork 0 0 false 4)

-- The last waitpid finds no child, and sets errno.
one_exit : Interrupts forked 5 collected
one_exit =
    then
      (then
        (then (then (then none_yet (exit 0 0 false serving 4)) (deliver 0 1 4))
          (reap 0 0 false 4 4))
        (stop 0 false 4 4))
      (restore 0 0 false 4 (waited 0 4))

Interrupts-Reachable : {s t : Parent} {n : ℕ} → Reachable s → Interrupts s n t → Reachable t
Interrupts-Reachable r none_yet = r
Interrupts-Reachable r (then i st) = interrupted (Interrupts-Reachable r i) st

no_zombies_example : collected.zombies ≡ 0
no_zombies_example = no_zombies (Interrupts-Reachable forked-Reachable one_exit) refl refl

sigchild_spares_errno_example : collected.errno ≡ forked.errno
sigchild_spares_errno_example = sigchild_spares_errno one_exit refl refl

sigchild_ends_example :
    (5 ≤ pace forked)
    × (((collected.place ≡ serving) × (collected.pending ≡ false))
        ⊎ ((u : Parent) × Interrupt collected u × (u.running ≡ collected.running)))
sigchild_ends_example = sigchild_ends one_exit
