-- ===== src/MatchServer/Traffic.antt =====
-- From the game client to the converter (game_client.cxx, Acceptor.cxx, Converter.cxx): what becomes of
-- the packets of a client that attacks every 17 milliseconds. The enumeration is that of netdefs.h.
use inferno_game_server.Base.{
  ℕ, ◌<◌, ◌≡◌, ◌≢◌, ◌⊎◌, inl, inr, refl, subst, List, [], ◌∷◌, ◌++◌, Option, none, some, arith,
  take, replicate, All, All-append,
}
use inferno_game_server.Base.Bytes.{codes, overlay}
use inferno_game_server.MatchServer.{
  Packet, SpscQueue, Pipeline, build_packet, receive, popped, convert, process_packet,
}
use inferno_game_server.MatchServer.Queue.{
  IsQueue, Turn, receives, converts, taken, first, turn, run,
}

-- enum clientAction : uint8_t
pub data ClientAction : Type 0 where
  move_to q_attack w_attack e_attack r_attack : ClientAction
  ping_warn ping_moveto ping_assist match_req quit : ClientAction

abbrev pub client_actions : List ClientAction
client_actions =
    move_to ∷ q_attack ∷ w_attack ∷ e_attack ∷ r_attack ∷ ping_warn ∷ ping_moveto ∷ ping_assist
    ∷ match_req ∷ quit ∷ []

-- The value of an enumerator.
abbrev pub code_of : ClientAction → ℕ
code_of move_to = 0
code_of q_attack = 1
code_of w_attack = 2
code_of e_attack = 3
code_of r_attack = 4
code_of ping_warn = 5
code_of ping_moveto = 6
code_of ping_assist = 7
code_of match_req = 8
code_of quit = 9

-- const char* buffer = "Q_ATTACK";
abbrev pub attack_text : List ℕ
attack_text = codes "Q_ATTACK"

-- A turn of either thread in which the acceptor hears nothing but game clients.
abbrev pub HearsAttack : Turn → Type 0
HearsAttack converts = Unit
HearsAttack (receives none) = ⊥
HearsAttack (receives (some (from, bytes))) = bytes ≡ attack_text

abbrev pub zeros : ℕ → List ℕ
zeros n = replicate n 0

-- The text in an array of MAXPACKETSIZE.
abbrev pub attack_bytes : List ℕ
attack_bytes = attack_text ++ zeros 1016

abbrev IsAttack : Packet → Type 0
IsAttack p = p.data_bytes ≡ attack_bytes

overlaid :
    (b : List ℕ)
    → (b ≡ zeros 1024) ⊎ (b ≡ attack_bytes)
    → overlay (take 1023 attack_text) b ≡ attack_bytes
unfolding overlay
overlaid b (inl e) = rw e refl
overlaid b (inr e) = rw e refl

-- What the converter makes of a packet: the code is the letter Q, which is no action.
abbrev pub NotUnderstood : Packet → Type 0
NotUnderstood p =
    (process_packet p ≡ some 81)
    × ((action : ClientAction) → process_packet p ≢ some (code_of action))

small-code : (action : ClientAction) → code_of action < 10
small-code move_to = omega arith
small-code q_attack = omega arith
small-code w_attack = omega arith
small-code e_attack = omega arith
small-code r_attack = omega arith
small-code ping_warn = omega arith
small-code ping_moveto = omega arith
small-code ping_assist = omega arith
small-code match_req = omega arith
small-code quit = omega arith

IsAttack-NotUnderstood : (p : Packet) → IsAttack p → NotUnderstood p
unfolding process_packet
IsAttack-NotUnderstood p h = rw h (refl, λ action e. ground (arith, small-code action))

All-NotUnderstood : (ps : List Packet) → All IsAttack ps → All NotUnderstood ps
All-NotUnderstood [] h = tt
All-NotUnderstood (p ∷ ps) h = (IsAttack-NotUnderstood p h.0, All-NotUnderstood ps h.1)

module _ {Q : Type 0} (spsc : SpscQueue Q) (laws : IsQueue spsc) where
  -- The buffer is as it was cleared, or holds the text; the queue holds nothing else.
  record Attacked (s : Pipeline Q) : Type 0 where
    pub buffer : (s.buffer ≡ zeros 1024) ⊎ (s.buffer ≡ attack_bytes)
    pub queue : All IsAttack (laws.contents s.queue)

  push-IsAttack :
      (p : Packet) (q : Q)
      → IsAttack p
      → All IsAttack (laws.contents q)
      → All IsAttack (laws.contents (spsc.push p q))
  push-IsAttack p q h hq = elim (laws.pushed p q) [
    | inl e ↦ rw e hq
    | inr e ↦ rw e (All-append IsAttack (laws.contents q) (p ∷ []) hq (h, tt))
  ]

  popped-Attacked :
      (o : Option (Packet × Q)) (s : Pipeline Q)
      → spsc.pop s.queue ≡ o
      → Attacked s
      → Attacked (popped o s) × All IsAttack (first o)
  popped-Attacked none s e a = (a, tt)
  popped-Attacked (some (p, q)) s e a =
      let h = subst (All IsAttack) (laws.taken_first p s.queue q e) a.queue in
      (record { buffer = a.buffer; queue = h.1 }, (h.0, tt))

  turn-Attacked :
      (t : Turn) (s : Pipeline Q)
      → HearsAttack t
      → Attacked s
      → Attacked (turn spsc t s) × All IsAttack (taken spsc t s)
  unfolding receive convert
  turn-Attacked converts s h a = popped-Attacked (spsc.pop s.queue) s refl a
  turn-Attacked (receives none) s h a = absurd h
  turn-Attacked (receives (some (from, bytes))) s h a =
      let e : overlay (take 1023 bytes) s.buffer ≡ attack_bytes =
        rw h (overlaid s.buffer a.buffer) in
      (
        record {
          buffer = inr e;
          queue =
              push-IsAttack (build_packet from (overlay (take 1023 bytes) s.buffer)) s.queue e
                a.queue;
        },
        tt,
      )

  run-IsAttack :
      (ts : List Turn) (s : Pipeline Q)
      → All HearsAttack ts
      → Attacked s
      → All IsAttack (run spsc ts s).1
  run-IsAttack [] s h a = tt
  run-IsAttack (t ∷ ts) s h a =
      let (next, out) = turn-Attacked t s h.0 a in
      All-append IsAttack (taken spsc t s) (run spsc ts (turn spsc t s)).1 out
        (run-IsAttack ts (turn spsc t s) h.1 next)

  -- The attacks of a game client are not understood. Let the queue be one as Boost documents it. From the
  -- cleared array and the empty queue that the threads start with, in any order of their turns, if every
  -- datagram is what a game client sends, then every packet that the converter takes from the queue has
  -- the code 81, the letter Q, which is the value of no client action; Q_ATTACK is 1.
  pub attacks_meaningless :
      (ts : List Turn) (s : Pipeline Q)
      → s.buffer ≡ zeros 1024
      → laws.contents s.queue ≡ []
      → All HearsAttack ts
      → All NotUnderstood (run spsc ts s).1
  attacks_meaningless ts s cleared none_yet h =
      All-NotUnderstood (run spsc ts s).1
        (run-IsAttack ts s h (record { buffer = inl cleared; queue = rw none_yet tt }))
