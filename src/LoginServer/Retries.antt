-- ===== src/LoginServer/Retries.antt =====
-- How often `chat_server_auth` and `match_server_auth` (LoginServer.cxx) send, and when they end.
use inferno_game_server.Base.{ℕ, ◌+◌, ◌≤◌, ◌<◌, ◌≡◌, true, false, List, [], ◌∷◌, some, arith}
use inferno_game_server.LoginServer.Auth.{Pass, Peer, Verdict, await, contents, chat_server_auth}

await-bound : (t0 tries : ℕ) (ps : List Pass) → tries ≤ 10 → (await t0 tries ps).1 + tries ≤ 11
unfolding await
await-bound t0 tries [] h = omega arith
await-bound t0 tries (p ∷ ps) h =
    ground (arith, await-bound p.t0 (tries + 1) ps, await-bound t0 tries ps h)

-- A text that fits is sent, and then sent again at most eleven times, whatever the other server does.
pub auth_resends :
    (auth_token username : List ℕ) (p : Peer) (v : Verdict) (n : ℕ)
    → chat_server_auth auth_token username p ≡ some (v, n)
    → n ≤ 11
unfolding chat_server_auth contents
auth_resends auth_token username p v n h = ground (arith, await-bound p.t0 0 p.passes)

-- From `t0` on no answer comes, every datagram goes out, and half a second passes between two
-- passes, but not the 2147 seconds after which the difference is no `int`.
abbrev pub IsSilent : ℕ → List Pass → Type 0
IsSilent t0 [] = Unit
IsSilent t0 (p ∷ ps) =
    (p.ack ≡ false)
    × (p.sends ≡ true)
    × (t0 + 500000 < p.t1)
    × (p.t1 < t0 + 2147483648)
    × IsSilent p.t0 ps
