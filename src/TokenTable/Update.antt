-- ===== src/TokenTable/Update.antt =====
-- The chat server's constructor and its loop `update` (ChatServer.cxx): how long the server runs.
use inferno_game_server.Base.{
  ℕ, ◌+◌, ◌*◌, ◌≤◌, ◌<◌, ◌≡◌, ◌⊎◌, ◌↔◌, inl, inr, refl, ap, sym, ◌∙◌, Bool, true, false, ◌&&◌, List,
  [], ◌∷◌, ◌++◌, Option, some, Result, ok, err, ◌>>=◌, arith, ltb, leb, le→leb, take, drop, All,
  Bool-cases, if◌then◌else◌,
}
use inferno_game_server.Base.Bytes.{c_string, strlen, clear}
use inferno_game_server.Listeners.{Address, setup_udp_client_connection}
use inferno_game_server.TokenTable.{
  Halt, undefined, erase, User, Expiry, Table, Timeval, Datagram, empty, micros, scrub, scrub_list,
  admit, last_recvfrom, receive_new,
}
use inferno_game_server.TokenTable.Receive.{admit_all, clear-strlen, loop_of_cleared}

pub record ChatServer : Type 0 where
  pub table : Table
  pub login_sock : Option ℕ

-- `ChatServer::ChatServer`: the result of the set-up is only logged.
unfoldable pub chat_server : Option (List Address) → Option ℕ → ChatServer
unfolding empty setup_udp_client_connection
chat_server addresses login_sock = record {
  table = empty;
  login_sock = (setup_udp_client_connection addresses login_sock).sock;
}

-- A pass of the loop: what the stack holds where `receive_new` has its arrays, the datagrams that it
-- takes, whether `recvfrom` then fails, so that it returns, and the time that `scrub_list` reads.
pub record Pass : Type 0 where
  pub buffer : List ℕ
  pub token_buffer : List ℕ
  pub uname_buffer : List ℕ
  pub datagrams : List Datagram
  pub fails : Bool
  pub tv : Timeval

-- The table after some passes of `update`.
unfoldable pub update : List Pass → Table → Result Halt Table
unfolding receive_new scrub_list
update [] t = ok t
update (p ∷ ps) t = do
  t' ← receive_new p.buffer p.token_buffer p.uname_buffer p.datagrams p.fails t
  t'' ← scrub_list p.tv t'
  update ps t''

-- The arrays of a pass end within their bytes, and so does the name behind the token.
pub record IsEnded (p : Pass) : Type 0 where
  pub n : ℕ
  pub token_n : ℕ
  pub uname_n : ℕ
  pub name : List ℕ
  pub buffer : strlen p.buffer ≡ some n
  pub token_buffer : strlen p.token_buffer ≡ some token_n
  pub uname_buffer : strlen p.uname_buffer ≡ some uname_n
  pub named : c_string (take 21 (drop 64 (clear n p.buffer))) ≡ some name

receive_new-ended :
    (p : Pass) (t : Table) (e : IsEnded p)
    → receive_new p.buffer p.token_buffer p.uname_buffer p.datagrams p.fails t
      ≡ last_recvfrom p.fails (admit_all e.name p.datagrams t)
unfolding receive_new
receive_new-ended p t e =
    let (r, c) = clear-strlen p.buffer e.buffer in
    let named : c_string (take 21 (drop 64 (0 ∷ r))) ≡ some e.name = rw (← c) e.named in
    rw (e.buffer, e.token_buffer, e.uname_buffer, c)
      (loop_of_cleared r e.name p.datagrams p.fails t named)

abbrev pub later_of : ℕ → ℕ → ℕ
later_of a b = if ltb a b then b else a

-- When the last user is dropped.
abbrev pub latest : List Expiry → ℕ
latest [] = 0
latest (e ∷ es) = later_of e.time (latest es)

latest-append :
    (es : List Expiry) (e : Expiry) → latest (es ++ e ∷ []) ≡ later_of (latest es) e.time
latest-append [] e = ground arith
latest-append (f ∷ es) e = ground (arith, latest-append es e)

-- Five minutes from the last login.
abbrev pub five_minutes : ℕ → List Datagram → ℕ
five_minutes last [] = last
five_minutes last (d ∷ ds) = five_minutes (later_of last (300 * 1000000 + micros d.tv)) ds

latest-admit_all :
    (name : List ℕ) (ds : List Datagram) (t : Table)
    → latest (admit_all name ds t).expiry ≡ five_minutes (latest t.expiry) ds
unfolding admit_all admit
latest-admit_all name [] t = refl
latest-admit_all name (d ∷ ds) t =
    latest-admit_all name ds (admit name [] d.tv t)
    ∙ ap (λ l. five_minutes l ds) (latest-append t.expiry _)

-- What becomes of the loop of `scrub_list`.
abbrev Scrubbed : ℕ → List Expiry → Result Halt Table → Type 0
Scrubbed now es r =
    ((now ≤ latest es) × ((t : Table) × (r ≡ ok t) × (latest t.expiry ≡ latest es)))
    ⊎ ((latest es < now) × (r ≡ err undefined))

Scrubbed-expired :
    (now : ℕ) (e : Expiry) (es : List Expiry) (r : Result Halt Table)
    → e.time < now
    → Scrubbed now es r
    → Scrubbed now (e ∷ es) r
Scrubbed-expired now e es r h (inl (live, (t, q, kept))) =
    let l : latest (e ∷ es) ≡ latest es = ground arith in inl (rw l live, (t, q, kept ∙ sym l))
Scrubbed-expired now e es r h (inr (past, q)) = inr (ground arith, q)

scrub-Scrubbed :
    (now : ℕ) (us : List User) (es : List Expiry) → 0 < now → Scrubbed now es (scrub now us es)
unfolding scrub
scrub-Scrubbed now us [] h = inr (h, refl)
scrub-Scrubbed now us (e ∷ es) h = elim (Bool-cases (ltb e.time now)) [
  | inl old ↦
      rw old
        (Scrubbed-expired now e es _ (ground arith) (scrub-Scrubbed now (erase e.username us) es h))
  | inr new ↦
      inl (ground arith, (record { current_users = us; expiry = e ∷ es }, rw new refl, refl))
]

scrub_list-Scrubbed :
    (tv : Timeval) (t : Table) → 0 < micros tv → Scrubbed (micros tv) t.expiry (scrub_list tv t)
unfolding scrub_list
scrub_list-Scrubbed tv t h = scrub-Scrubbed (micros tv) t.current_users t.expiry h

-- The specification of the loop, from the time when the last user is dropped: in each pass
-- `recvfrom` fails at last, and then a login in the last five minutes is known.
abbrev pub survives : ℕ → List Pass → Bool
survives last [] = true
survives last (p ∷ ps) =
    let last' = five_minutes last p.datagrams in
    p.fails && (leb (micros p.tv) last' && survives last' ps)

abbrev pub Returns : Result Halt Table → Type 0
Returns r = (t : Table) × (r ≡ ok t)

abbrev pub IsDated : Pass → Type 0
IsDated p = 0 < micros p.tv

update-Scrubbed :
    (p : Pass) (ps : List Pass) (last : ℕ) (t : Table)
    → ((t' : Table) → (Returns (update ps t')) ↔ (survives (latest t'.expiry) ps ≡ true))
    → latest t.expiry ≡ last
    → (r : Result Halt Table) → Scrubbed (micros p.tv) t.expiry r
    → (Returns (r >>= update ps)) ↔ ((leb (micros p.tv) last && survives last ps) ≡ true)
update-Scrubbed p ps last t rest e r (inl (live, (t', q, kept))) =
    rw (q, ← e, le→leb (micros p.tv) (latest t.expiry) live, ← kept) (rest t')
update-Scrubbed p ps last t rest e r (inr (past, q)) =
    let late : leb (micros p.tv) last ≡ false = ground arith in
    rw (q, late) (λ returns. cc (returns.1), λ h. cc)

update-survives :
    (ps : List Pass) (t : Table)
    → All IsEnded ps
    → All IsDated ps
    → (Returns (update ps t)) ↔ (survives (latest t.expiry) ps ≡ true)
unfolding update
update-survives [] t ended clock = (λ r. refl, λ h. (t, refl))
update-survives (p ∷ ps) t ended clock =
    let t1 = admit_all ended.0.name p.datagrams t in
    rw (receive_new-ended p t ended.0) (elim (Bool-cases p.fails) [
      | inr blocks ↦ rw blocks (λ returns. cc (returns.1), λ h. cc)
      | inl fails ↦ rw fails (
          update-Scrubbed p ps (five_minutes (latest t.expiry) p.datagrams) t1
            (λ t'. update-survives ps t' ended.1 clock.1)
            (latest-admit_all ended.0.name p.datagrams t) (scrub_list p.tv t1)
            (scrub_list-Scrubbed p.tv t1 clock.0))
    ])

-- The chat server goes on exactly while its socket fails and somebody has just logged in. From its
-- constructor, whatever becomes of the socket: on a clock after 1970, if the arrays of every pass
-- and the name that they hold of old end within their bytes, then the passes of `update` all end,
-- without undefined behaviour, if and only if in each of them `recvfrom` fails after the datagrams,
-- where else the blocking socket waits and the table is not scrubbed, and when the clock is read,
-- at most five minutes have gone since the time of some datagram of the login server taken before,
-- in that pass or an earlier one. So the first pass is undefined if `recvfrom` fails before any has
-- come.
pub chat_server-survives :
    (addresses : Option (List Address)) (login_sock : Option ℕ) (ps : List Pass)
    → All IsEnded ps
    → All IsDated ps
    → (Returns (update ps (chat_server addresses login_sock).table)) ↔ (survives 0 ps ≡ true)
unfolding chat_server empty
chat_server-survives addresses login_sock ps ended clock = update-survives ps empty ended clock
