-- ===== src/Packets/ProtocolPacket.antt =====
-- Packets/Protocol_Packet.h and Protocol_Packet.cxx: the layer of connection control.
use inferno_game_server.Base.{ℕ, ◌+◌, ◌-◌}
use inferno_game_server.Packets.Memory.{Buffer, store, load}
use inferno_game_server.Packets.Packet
use inferno_game_server.Packets.Packet.{PacketHeader}

pub record ProtocolHeader : Type 0 where
  pub op : ℕ

-- Strips the layer's header: the moved tail and the header.
unfoldable pub deserialize : ℕ → Buffer → ℕ × ProtocolHeader
deserialize tail b = (tail - 1, record { op = load (tail - 1) 1 b })

-- The layer's header is written at `tail`, and then `Packet::add_header` at the same `tail`.
unfoldable pub add_header : PacketHeader → ProtocolHeader → ℕ → Buffer → Buffer
unfolding Packet.add_header
add_header header pr_header tail b =
    let b1 = store tail 1 pr_header.op b in Packet.add_header header tail b1

unfoldable pub get_header_size : ℕ
unfolding Packet.get_header_size
get_header_size = 1 + Packet.get_header_size
