-- ===== src/Notification.antt =====
-- The login server tells the chat server and the match maker who has logged in: `chat_server_auth`
-- and `match_server_auth` of GameServer/LoginServer/server/LoginServer.cxx, composed with
-- `receive_new` of GameServer/ChatServer/ChatServer.cxx and of Linear/MatchMaker.cxx. Neither
-- receiver's code sends anything.
use inferno_game_server.Base.{
  ℕ, zero, suc, ◌+◌, ◌≡◌, ◌≢◌, refl, ap, sym, ◌∙◌, Bool, true, false, List, [], ◌∷◌, ◌++◌, map,
  Option, none, some, Option-cases, inl, inr, Result, ok, err, ◌>>=◌, or_err, All, ltb, take, drop,
  arith,
}
use inferno_game_server.Base.Bytes.{c_string, strlen, clear, overlay}
use inferno_game_server.LoginServer.Auth.{
  Pass, Peer, Verdict, confirmed, await, contents, chat_server_auth, match_server_auth, started,
}
use inferno_game_server.TokenTable
use inferno_game_server.TokenTable.{Halt, undefined, Table, Timeval, Datagram, admit, receive_loop}
use inferno_game_server.TokenTable.Receive.{clear-strlen}
use inferno_game_server.MatchMaker
use inferno_game_server.MatchMaker.{receive_new_alike}
mod Examples

-- The datagram of a token and a name, at the times when copies of it are processed.
abbrev pub copies : List ℕ → List ℕ → List Timeval → List Datagram
copies auth_token username [] = []
copies auth_token username (tv ∷ tvs) =
    record { bytes = auth_token ++ username; tv = tv } ∷ copies auth_token username tvs

-- No answer comes.
abbrev pub Unanswered : List Pass → Type 0
Unanswered = All (λ p. p.ack ≡ false)

await_unconfirmed :
    (t0 tries : ℕ) (ps : List Pass) → Unanswered ps → (await t0 tries ps).0 ≢ confirmed
unfolding await
await_unconfirmed t0 tries [] h = λ e. cc
await_unconfirmed t0 tries (p ∷ ps) h =
    let later = await_unconfirmed p.t0 (tries + 1) ps h.1 in
    let again = await_unconfirmed t0 tries ps h.1 in λ e. ground (arith, later, again)

started_unconfirmed :
    (p : Peer) (text : Option (List ℕ)) (v : Verdict) (n : ℕ)
    → Unanswered p.passes
    → started p text ≡ some (v, n)
    → v ≢ confirmed
started_unconfirmed p none v n h e = cc
started_unconfirmed p (some text) v n h e =
    let awaited = await_unconfirmed p.t0 0 p.passes h in λ q. ground (arith, awaited)

loop_alike :
    (r auth_token username auth_token' username' : List ℕ) (tvs : List Timeval) (fails : Bool)
    (t : Table)
    → receive_loop (0 ∷ r) (copies auth_token username tvs) fails t
      ≡ receive_loop (0 ∷ r) (copies auth_token' username' tvs) fails t
unfolding receive_loop
loop_alike r a u a' u' [] fails t = refl
loop_alike r a u a' u' (tv ∷ tvs) fails t =
    elim (Option-cases (c_string (take 21 (drop 64 (0 ∷ r))))) [
      | inl e ↦ rw e refl
      | inr (name, e) ↦ rw e (loop_alike r a u a' u' tvs fails (admit name [] tv t))
    ]

receive_alike :
    (buffer token_buffer uname_buffer auth_token username auth_token' username' : List ℕ)
    (tvs : List Timeval) (fails : Bool) (t : Table)
    → TokenTable.receive_new buffer token_buffer uname_buffer
        (copies auth_token username tvs)
        fails
        t
      ≡ TokenTable.receive_new buffer token_buffer uname_buffer
          (copies auth_token' username' tvs)
          fails
          t
unfolding TokenTable.receive_new
receive_alike buffer token_buffer uname_buffer a u a' u' tvs fails t =
    elim (Option-cases (strlen buffer)) [
      | inl e ↦ rw e refl
      | inr (n, e) ↦
          let (r, c) = clear-strlen buffer e in
          rw (e, c)
            (ap
              (λ q. or_err undefined (strlen token_buffer) >>= λ token_n.
                (or_err undefined (strlen uname_buffer) >>= λ uname_n. q))
              (loop_alike r a u a' u' tvs fails t))
    ]

-- The chat server and the match maker learn nothing. Whoever logged in, with whatever token:
-- neither notification is confirmed, on any schedule of passes in which no answer comes; and any
-- number of copies of the datagram, processed at any times, make of any table, on any old content
-- of the arrays, what copies for another user with another token would make of it, in the chat
-- server and in the match maker.
pub notification_lost :
    (auth_token username auth_token' username' : List ℕ) (p : Peer)
    → Unanswered p.passes
    → ((v : Verdict) (n : ℕ)
        → ((chat_server_auth auth_token username p ≡ some (v, n)) → v ≢ confirmed)
          × ((match_server_auth auth_token username p ≡ some (v, n)) → v ≢ confirmed))
      × ((buffer token_buffer uname_buffer : List ℕ) (tvs : List Timeval) (fails : Bool) (t : Table)
          → (TokenTable.receive_new buffer token_buffer uname_buffer
                (copies auth_token username tvs)
                fails
                t
              ≡ TokenTable.receive_new buffer token_buffer uname_buffer
                  (copies auth_token' username' tvs)
                  fails
                  t)
            × (MatchMaker.receive_new buffer token_buffer uname_buffer
                  (copies auth_token username tvs)
                  fails
                  t
                ≡ MatchMaker.receive_new buffer token_buffer uname_buffer
                    (copies auth_token' username' tvs)
                    fails
                    t))
unfolding chat_server_auth match_server_auth
notification_lost a u a' u' p h = (
  λ v n. (
    started_unconfirmed p (contents p.memory a u) v n h,
    started_unconfirmed p (contents p.memory a u) v n h,
  ),
  λ buffer token_buffer uname_buffer tvs fails t.
      let alike = receive_alike buffer token_buffer uname_buffer a u a' u' tvs fails t in
      (
        alike,
        receive_new_alike buffer token_buffer uname_buffer (copies a u tvs) fails t
            ∙ (alike
                ∙ sym (
                    receive_new_alike buffer token_buffer uname_buffer (copies a' u' tvs) fails t)),
      ),
)
