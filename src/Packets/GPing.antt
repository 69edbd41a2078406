-- ===== src/Packets/GPing.antt =====
-- Packets/G_Ping_Packet.h and G_Ping_Packet.cxx.
use inferno_game_server.Base.{ℕ, ◌+◌, ◌-◌, ◌<◌, ◌≡◌, arith}
use inferno_game_server.Packets.Codec.{Codec}
use inferno_game_server.Packets.Memory.{Buffer, store, load, AgreeFrom, byte_1, bytes_4}
use inferno_game_server.Packets.Packet
use inferno_game_server.Packets.Packet.{PacketHeader, IsSized, split-joined}
use inferno_game_server.Packets.EventPacket
use inferno_game_server.Packets.EventPacket.{EventHeader}

-- struct g_ping
pub record GPing : Type 0 where
  pub ping : ℕ  -- ping_type
  pub x : ℕ  -- uint32_t
  pub y : ℕ  -- uint32_t

-- The members of the object, those of its base classes first.
pub record GPingPacket : Type 0 where
  pub header : PacketHeader
  pub e_header : EventHeader
  pub ping_data : GPing

unfoldable pub serialize : GPingPacket → Buffer → Buffer
unfolding EventPacket.add_header
serialize p b =
    let c = p.ping_data in
    let b1 = store 0 1 c.ping b in
    let b2 = store 1 4 c.x b1 in
    let b3 = store 5 4 c.y b2 in EventPacket.add_header p.header p.e_header 9 b3

unfoldable pub deserialize : ℕ → Buffer → GPing
deserialize tail b = record {
  y = load (tail - 4) 4 b;
  x = load (tail - 8) 4 b;
  ping = load (tail - 9) 1 b;
}

unfoldable pub get_packet_size : ℕ
unfolding EventPacket.get_header_size
get_packet_size = 9 + EventPacket.get_header_size

-- The values that the fields' types can hold.
pub record Fits (p : GPingPacket) : Type 0 where
  pub sized : IsSized p.header
  pub ping : p.ping_data.ping < 256
  pub x : p.ping_data.x < 4294967296
  pub y : p.ping_data.y < 4294967296

pub deserialize-serialize :
    (p : GPingPacket) (b : Buffer) → Fits p → deserialize 9 (serialize p b) ≡ p.ping_data
unfolding deserialize serialize
deserialize-serialize p b h = λ i. record {
  ping = byte_1 p.ping_data.ping h.ping i;
  x = bytes_4 p.ping_data.x h.x i;
  y = bytes_4 p.ping_data.y h.y i;
}

pub packet-serialize :
    (p : GPingPacket) (b : Buffer) (h : PacketHeader)
    → Fits p
    → Packet.deserialize 21 (serialize p b) h ≡ (9, record p.header { type = h.type })
unfolding Packet.deserialize serialize
packet-serialize p b h f = split-joined 9 p.header h f.sized

pub serialize-AgreeFrom : (p : GPingPacket) (b : Buffer) → AgreeFrom 21 (serialize p b) b
unfolding serialize
serialize-AgreeFrom p b = λ a h. ground arith

pub packet_room : 9 + 12 < get_packet_size
unfolding get_packet_size
packet_room = omega arith

abbrev pub codec : Codec
codec = record {
  Obj = GPingPacket;
  Content = GPing;
  Fits = Fits;
  header = λ p. p.header;
  content = λ p. p.ping_data;
  size = 9;
  packet_size = get_packet_size;
  serialize = serialize;
  deserialize = deserialize;
  content_back = deserialize-serialize;
  header_back = packet-serialize;
  untouched = serialize-AgreeFrom;
  room = packet_room;
}
