-- ===== src/Packets/IAuto.antt =====
-- Packets/I_Auto_Packet.h and I_Auto_Packet.cxx.
use inferno_game_server.Base.{ℕ, ◌+◌, ◌-◌, ◌<◌, ◌≡◌, arith}
use inferno_game_server.Packets.Codec.{Codec}
use inferno_game_server.Packets.Memory.{Buffer, store, load, AgreeFrom, byte_1, bytes_2, bytes_4}
use inferno_game_server.Packets.Packet
use inferno_game_server.Packets.Packet.{PacketHeader, IsSized, split-joined}
use inferno_game_server.Packets.SyncPacket
use inferno_game_server.Packets.SyncPacket.{SyncHeader}

-- struct auto_update
pub record AutoUpdate : Type 0 where
  pub x : ℕ  -- uint32_t
  pub y : ℕ  -- uint32_t
  pub z : ℕ  -- uint32_t
  pub owner : ℕ  -- uint16_t
  pub target : ℕ  -- uint16_t
  pub damage : ℕ  -- uint16_t
  pub removed : ℕ  -- uint8_t

-- The members of the object, those of its base classes first.
pub record IAutoPacket : Type 0 where
  pub header : PacketHeader
  pub s_header : SyncHeader
  pub auto_data : AutoUpdate

unfoldable pub serialize : IAutoPacket → Buffer → Buffer
unfolding SyncPacket.add_header
serialize p b =
    let c = p.auto_data in
    let b1 = store 0 4 c.x b in
    let b2 = store 4 4 c.y b1 in
    let b3 = store 8 4 c.z b2 in
    let b4 = store 12 2 c.owner b3 in
    let b5 = store 14 2 c.target b4 in
    let b6 = store 16 2 c.damage b5 in
    let b7 = store 18 1 c.removed b6 in SyncPacket.add_header p.header p.s_header 19 b7

unfoldable pub deserialize : ℕ → Buffer → AutoUpdate
deserialize tail b = record {
  removed = load (tail - 1) 1 b;
  damage = load (tail - 3) 2 b;
  target = load (tail - 5) 2 b;
  owner = load (tail - 7) 2 b;
  z = load (tail - 11) 4 b;
  y = load (tail - 15) 4 b;
  x = load (tail - 19) 4 b;
}

unfoldable pub get_packet_size : ℕ
unfolding Packet.get_header_size
get_packet_size = 19 + Packet.get_header_size

-- The values that the fields' types can hold.
pub record Fits (p : IAutoPacket) : Type 0 where
  pub sized : IsSized p.header
  pub x : p.auto_data.x < 4294967296
  pub y : p.auto_data.y < 4294967296
  pub z : p.auto_data.z < 4294967296
  pub owner : p.auto_data.owner < 65536
  pub target : p.auto_data.target < 65536
  pub damage : p.auto_data.damage < 65536
  pub removed : p.auto_data.removed < 256

pub deserialize-serialize :
    (p : IAutoPacket) (b : Buffer) → Fits p → deserialize 19 (serialize p b) ≡ p.auto_data
unfolding deserialize serialize
deserialize-serialize p b h = λ i. record {
  x = bytes_4 p.auto_data.x h.x i;
  y = bytes_4 p.auto_data.y h.y i;
  z = bytes_4 p.auto_data.z h.z i;
  owner = bytes_2 p.auto_data.owner h.owner i;
  target = bytes_2 p.auto_data.target h.target i;
  damage = bytes_2 p.auto_data.damage h.damage i;
  removed = byte_1 p.auto_data.removed h.removed i;
}

pub packet-serialize :
    (p : IAutoPacket) (b : Buffer) (h : PacketHeader)
    → Fits p
    → Packet.deserialize 31 (serialize p b) h ≡ (19, record p.header { type = h.type })
unfolding Packet.deserialize serialize
packet-serialize p b h f = split-joined 19 p.header h f.sized

pub serialize-AgreeFrom : (p : IAutoPacket) (b : Buffer) → AgreeFrom 31 (serialize p b) b
unfolding serialize
serialize-AgreeFrom p b = λ a h. ground arith

pub packet_room : 19 + 12 < get_packet_size
unfolding get_packet_size
packet_room = omega arith

abbrev pub codec : Codec
codec = record {
  Obj = IAutoPacket;
  Content = AutoUpdate;
  Fits = Fits;
  header = λ p. p.header;
  content = λ p. p.auto_data;
  size = 19;
  packet_size = get_packet_size;
  serialize = serialize;
  deserialize = deserialize;
  content_back = deserialize-serialize;
  header_back = packet-serialize;
  untouched = serialize-AgreeFrom;
  room = packet_room;
}
