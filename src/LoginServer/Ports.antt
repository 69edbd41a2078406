-- ===== src/LoginServer/Ports.antt =====
-- The ports that `login_user` and `recv_password` hand out (LoginServer.cxx): each takes the next port
-- under a mutex, and steps on by the same code.
use inferno_game_server.Base.{ℕ, zero, suc, ◌+◌, ◌≡◌, refl, arith, leb, if◌then◌else◌}

-- `next += 1; if(next <= 14000) next = 13000;`
unfoldable pub next_port : ℕ → ℕ
next_port port = let next = port + 1 in if leb next 14000 then 13000 else next

abbrev pub first_registration_port : ℕ
first_registration_port = 13000

abbrev pub first_login_port : ℕ
first_login_port = 14000

-- The port that the n-th request of one process is given.
unfoldable pub port_of : ℕ → ℕ → ℕ
unfolding next_port
port_of zero first = first
port_of (suc n) first = next_port (port_of n first)

registration_port_of : (n : ℕ) → port_of n first_registration_port ≡ 13000
unfolding port_of
registration_port_of zero = refl
registration_port_of (suc n) = ground (arith, registration_port_of n)

login_port_of : (n : ℕ) → port_of n first_login_port ≡ 14000 + n
unfolding port_of
login_port_of zero = refl
login_port_of (suc n) = ground (arith, login_port_of n)

-- The n-th registration of a process is given port 13000, every time, and its n-th login port 14000 + n,
-- without a bound: the test that should wrap the ports round is the wrong way about.
pub assigned_ports :
    (n : ℕ) → (port_of n first_registration_port ≡ 13000) × (port_of n first_login_port ≡ 14000 + n)
assigned_ports n = (registration_port_of n, login_port_of n)
