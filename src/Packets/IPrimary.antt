-- ===== src/Packets/IPrimary.antt =====
-- Packets/I_Primary_Packet.h and I_Primary_Packet.cxx.
use inferno_game_server.Base.{ℕ, ◌+◌, ◌-◌, ◌<◌, ◌≡◌, arith}
use inferno_game_server.Packets.Codec.{Codec}
use inferno_game_server.Packets.Memory.{Buffer, store, load, AgreeFrom, byte_1, bytes_2, bytes_4}
use inferno_game_server.Packets.Packet
use inferno_game_server.Packets.Packet.{PacketHeader, IsSized, split-joined}
use inferno_game_server.Packets.SyncPacket
use inferno_game_server.Packets.SyncPacket.{SyncHeader}

-- struct primary_update
pub record PrimaryUpdate : Type 0 where
  pub id : ℕ  -- uint16_t
  pub x : ℕ  -- uint32_t
  pub y : ℕ  -- uint32_t
  pub z : ℕ  -- uint32_t
  pub target_x : ℕ  -- uint32_t
  pub target_y : ℕ  -- uint32_t
  pub target_z : ℕ  -- uint32_t
  pub damage : ℕ  -- uint16_t
  pub removed : ℕ  -- uint8_t

-- The members of the object, those of its base classes first.
pub record IPrimaryPacket : Type 0 where
  pub header : PacketHeader
  pub s_header : SyncHeader
  pub primary_data : PrimaryUpdate

unfoldable pub serialize : IPrimaryPacket → Buffer → Buffer
unfolding SyncPacket.add_header
serialize p b =
    let c = p.primary_data in
    let b1 = store 0 2 c.id b in
    let b2 = store 2 4 c.x b1 in
    let b3 = store 6 4 c.y b2 in
    let b4 = store 10 4 c.z b3 in
    let b5 = store 14 4 c.target_x b4 in
    let b6 = store 18 4 c.target_y b5 in
    let b7 = store 22 4 c.target_z b6 in
    let b8 = store 26 2 c.damage b7 in
    let b9 = store 28 1 c.removed b8 in SyncPacket.add_header p.header p.s_header 29 b9

unfoldable pub deserialize : ℕ → Buffer → PrimaryUpdate
deserialize tail b = record {
  removed = load (tail - 1) 1 b;
  damage = load (tail - 3) 2 b;
  target_z = load (tail - 7) 4 b;
  target_y = load (tail - 11) 4 b;
  target_x = load (tail - 15) 4 b;
  z = load (tail - 19) 4 b;
  y = load (tail - 23) 4 b;
  x = load (tail - 27) 4 b;
  id = load (tail - 29) 2 b;
}

unfoldable pub get_packet_size : ℕ
unfolding Packet.get_header_size
get_packet_size = 29 + Packet.get_header_size

-- The values that the fields' types can hold.
pub record Fits (p : IPrimaryPacket) : Type 0 where
  pub sized : IsSized p.header
  pub id : p.primary_data.id < 65536
  pub x : p.primary_data.x < 4294967296
  pub y : p.primary_data.y < 4294967296
  pub z : p.primary_data.z < 4294967296
  pub target_x : p.primary_data.target_x < 4294967296
  pub target_y : p.primary_data.target_y < 4294967296
  pub target_z : p.primary_data.target_z < 4294967296
  pub damage : p.primary_data.damage < 65536
  pub removed : p.primary_data.removed < 256

pub deserialize-serialize :
    (p : IPrimaryPacket) (b : Buffer) → Fits p → deserialize 29 (serialize p b) ≡ p.primary_data
unfolding deserialize serialize
deserialize-serialize p b h = λ i. record {
  id = bytes_2 p.primary_data.id h.id i;
  x = bytes_4 p.primary_data.x h.x i;
  y = bytes_4 p.primary_data.y h.y i;
  z = bytes_4 p.primary_data.z h.z i;
  target_x = bytes_4 p.primary_data.target_x h.target_x i;
  target_y = bytes_4 p.primary_data.target_y h.target_y i;
  target_z = bytes_4 p.primary_data.target_z h.target_z i;
  damage = bytes_2 p.primary_data.damage h.damage i;
  removed = byte_1 p.primary_data.removed h.removed i;
}

pub packet-serialize :
    (p : IPrimaryPacket) (b : Buffer) (h : PacketHeader)
    → Fits p
    → Packet.deserialize 41 (serialize p b) h ≡ (29, record p.header { type = h.type })
unfolding Packet.deserialize serialize
packet-serialize p b h f = split-joined 29 p.header h f.sized

pub serialize-AgreeFrom : (p : IPrimaryPacket) (b : Buffer) → AgreeFrom 41 (serialize p b) b
unfolding serialize
serialize-AgreeFrom p b = λ a h. ground arith

pub packet_room : 29 + 12 < get_packet_size
unfolding get_packet_size
packet_room = omega arith

abbrev pub codec : Codec
codec = record {
  Obj = IPrimaryPacket;
  Content = PrimaryUpdate;
  Fits = Fits;
  header = λ p. p.header;
  content = λ p. p.primary_data;
  size = 29;
  packet_size = get_packet_size;
  serialize = serialize;
  deserialize = deserialize;
  content_back = deserialize-serialize;
  header_back = packet-serialize;
  untouched = serialize-AgreeFrom;
  room = packet_room;
}
