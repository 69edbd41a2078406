-- ===== src/MatchServer.antt =====
-- GameServer/MatchServer: the clients of a match and their rating (MatchServer.cxx), and the way of a
-- datagram from the acceptor to the converter (Acceptor.cxx, Converter.cxx).
use inferno_game_server.Base.{
  ℕ, zero, suc, ◌+◌, ◌-◌, ◌/◌, ◌≤◌, Bool, true, false, List, [], ◌∷◌, ◌++◌, Option, none, some, ltb,
  leb, ◌==◌, length, take, if◌then◌else◌,
}
use inferno_game_server.Base.Int.{ℤ, pos, negsuc, ◌+ℤ◌, ◌-ℤ◌}
use inferno_game_server.Base.Bytes.{overlay}
pub mod Rating
pub mod Queue
pub mod Traffic
mod Examples

-- A client stands for its ELO.
pub record State : Type 0 where
  pub clients : List ℤ
  pub server_elo : ℤ

-- An int of 32 bits: none where the code's behaviour is undefined.
unfoldable pub to_int : ℤ → Option ℤ
to_int (pos n) = if ltb n 2147483648 then some (pos n) else none
to_int (negsuc n) = if ltb n 2147483648 then some (negsuc n) else none

-- The conversion to size_t.
abbrev pub to_size : ℤ → ℕ
to_size (pos n) = n
to_size (negsuc n) = 18446744073709551615 - n

abbrev pub bind : Option ℤ → (ℤ → Option ℤ) → Option ℤ
bind none k = none
bind (some a) k = k a

-- double addition = (newValue - serverELO) / clients.size(); serverELO += (int)addition;
-- The difference becomes a size_t in the division; a quotient past the range of int has no conversion.
unfoldable pub recalculate_elo : ℕ → ℤ → ℤ → Option ℤ
unfolding to_int ◌+ℤ◌ ◌-ℤ◌
recalculate_elo size new_value server_elo =
    if size == 1
    then some new_value
    else bind (to_int (new_value -ℤ server_elo)) (λ difference.
      bind (to_int (pos (to_size difference / size))) (λ addition. to_int (server_elo +ℤ addition)))

abbrev pub with_elo : List ℤ → Option ℤ → Option (State × Bool)
with_elo clients none = none
with_elo clients (some elo) = some (record { clients = clients; server_elo = elo }, true)

-- None where the behaviour is undefined.
unfoldable pub add_client : ℤ → State → Option (State × Bool)
unfolding recalculate_elo
add_client new_client s =
    if length s.clients == 10
    then some (s, false)
    else (let clients = s.clients ++ new_client ∷ [] in
        with_elo clients (recalculate_elo (length clients) new_client s.server_elo))

unfoldable pub get_client_count : State → ℕ
get_client_count s = length s.clients

unfoldable pub get_elo : State → ℤ
get_elo s = s.server_elo

-- `MatchServer::MatchServer` leaves serverELO as the memory has it.
unfoldable pub match_server : ℤ → State
match_server memory = record { clients = []; server_elo = memory }

pub record Packet : Type 0 where
  pub address : ℕ
  pub data_bytes : List ℕ

-- The calls of boost::lockfree::spsc_queue: the queue after a `push`, whether it was full or not; and for a
-- `pop` the packet and the queue after it, or none if there was no packet.
pub record SpscQueue (Q : Type 0) : Type 0 where
  pub push : Packet → Q → Q
  pub pop : Q → Option (Packet × Q)

-- What `startReceiving` and `convert` share, the queue, and what each keeps between its turns.
pub record Pipeline (Q : Type 0) : Type 0 where
  pub current_client : ℕ
  pub buffer : List ℕ
  pub queue : Q
  pub current_packet : Packet

abbrev pub build_packet : ℕ → List ℕ → Packet
build_packet addr input_data = record { address = addr; data_bytes = input_data }

abbrev pub first_code : List ℕ → Option ℕ
first_code [] = none
first_code (code ∷ rest) = some code

unfoldable pub process_packet : Packet → Option ℕ
process_packet p = first_code p.data_bytes

module _ {Q : Type 0} where
  abbrev pub popped : Option (Packet × Q) → Pipeline Q → Pipeline Q
  popped none s = s
  popped (some (p, q)) s = record s { queue = q; current_packet = p }

  module _ (spsc : SpscQueue Q) where
    -- One turn of `startReceiving`: a datagram and its sender, or an error, which is not skipped.
    -- Whether the `push` succeeded is not asked.
    unfoldable pub receive : Option (ℕ × List ℕ) → Pipeline Q → Pipeline Q
    unfolding overlay
    receive none s = record s { queue = spsc.push (build_packet s.current_client s.buffer) s.queue }
    receive (some (from, bytes)) s =
        let buffer = overlay (take 1023 bytes) s.buffer in
        record s {
          current_client = from;
          buffer = buffer;
          queue = spsc.push (build_packet from buffer) s.queue;
        }

    -- One turn of `convert`: `pop` leaves the packet of the turn before if the queue is empty, and that is
    -- processed again.
    unfoldable pub convert : Pipeline Q → Pipeline Q × Option ℕ
    unfolding process_packet
    convert s = let s' = popped (spsc.pop s.queue) s in (s', process_packet s'.current_packet)
