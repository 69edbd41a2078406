-- ===== src/Packets/EventPacket.antt =====
-- Packets/Event_Packet.h and Event_Packet.cxx: the layer of game events.
use inferno_game_server.Base.{ℕ, ◌+◌, ◌-◌}
use inferno_game_server.Packets.Memory.{Buffer, store, load}
use inferno_game_server.Packets.Packet
use inferno_game_server.Packets.Packet.{PacketHeader}

pub record EventHeader : Type 0 where
  pub priority : ℕ
  pub event : ℕ

-- Strips the layer's header: the moved tail and the header.
unfoldable pub deserialize : ℕ → Buffer → ℕ × EventHeader
deserialize tail b =
    (tail - 2, record { priority = load (tail - 2) 1 b; event = load (tail - 1) 1 b })

-- The layer's header is written at `tail`, and then `Packet::add_header` at the same `tail`.
unfoldable pub add_header : PacketHeader → EventHeader → ℕ → Buffer → Buffer
unfolding Packet.add_header
add_header header e_header tail b =
    let b1 = store tail 1 e_header.priority b in
    let b2 = store (tail + 1) 1 e_header.event b1 in Packet.add_header header tail b2

unfoldable pub get_header_size : ℕ
unfolding Packet.get_header_size
get_header_size = 2 + Packet.get_header_size
