-- ===== src/Packets/CPing.antt =====
-- Packets/C_Ping_Packet.h and C_Ping_Packet.cxx.
use inferno_game_server.Base.{ℕ, ◌+◌, ◌-◌, ◌<◌, ◌≡◌, arith}
use inferno_game_server.Packets.Codec.{Codec}
use inferno_game_server.Packets.Memory.{Buffer, store, load, AgreeFrom, byte_1}
use inferno_game_server.Packets.Packet
use inferno_game_server.Packets.Packet.{PacketHeader, IsSized, split-joined}
use inferno_game_server.Packets.ProtocolPacket
use inferno_game_server.Packets.ProtocolPacket.{ProtocolHeader}

-- struct c_ping
pub record CPing : Type 0 where
  pub stamp : ℕ  -- uint8_t

-- The members of the object, those of its base classes first.
pub record CPingPacket : Type 0 where
  pub header : PacketHeader
  pub pr_header : ProtocolHeader
  pub rtt : CPing

unfoldable pub serialize : CPingPacket → Buffer → Buffer
unfolding ProtocolPacket.add_header
serialize p b =
    let c = p.rtt in
    let b1 = store 0 1 c.stamp b in ProtocolPacket.add_header p.header p.pr_header 1 b1

unfoldable pub deserialize : ℕ → Buffer → CPing
deserialize tail b = record { stamp = load (tail - 1) 1 b }

unfoldable pub get_packet_size : ℕ
unfolding ProtocolPacket.get_header_size
get_packet_size = 1 + ProtocolPacket.get_header_size

-- The values that the fields' types can hold.
pub record Fits (p : CPingPacket) : Type 0 where
  pub sized : IsSized p.header
  pub stamp : p.rtt.stamp < 256

pub deserialize-serialize :
    (p : CPingPacket) (b : Buffer) → Fits p → deserialize 1 (serialize p b) ≡ p.rtt
unfolding deserialize serialize
deserialize-serialize p b h = λ i. record { stamp = byte_1 p.rtt.stamp h.stamp i }

pub packet-serialize :
    (p : CPingPacket) (b : Buffer) (h : PacketHeader)
    → Fits p
    → Packet.deserialize 13 (serialize p b) h ≡ (1, record p.header { type = h.type })
unfolding Packet.deserialize serialize
packet-serialize p b h f = split-joined 1 p.header h f.sized

pub serialize-AgreeFrom : (p : CPingPacket) (b : Buffer) → AgreeFrom 13 (serialize p b) b
unfolding serialize
serialize-AgreeFrom p b = λ a h. ground arith

pub packet_room : 1 + 12 < get_packet_size
unfolding get_packet_size
packet_room = omega arith

abbrev pub codec : Codec
codec = record {
  Obj = CPingPacket;
  Content = CPing;
  Fits = Fits;
  header = λ p. p.header;
  content = λ p. p.rtt;
  size = 1;
  packet_size = get_packet_size;
  serialize = serialize;
  deserialize = deserialize;
  content_back = deserialize-serialize;
  header_back = packet-serialize;
  untouched = serialize-AgreeFrom;
  room = packet_room;
}
