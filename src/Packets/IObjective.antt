-- ===== src/Packets/IObjective.antt =====
-- Packets/I_Objective_Packet.h and I_Objective_Packet.cxx.
use inferno_game_server.Base.{ℕ, ◌+◌, ◌-◌, ◌<◌, ◌≡◌, arith}
use inferno_game_server.Packets.Codec.{Codec}
use inferno_game_server.Packets.Memory.{Buffer, store, load, AgreeFrom, bytes_2, bytes_4}
use inferno_game_server.Packets.Packet
use inferno_game_server.Packets.Packet.{PacketHeader, IsSized, split-joined}
use inferno_game_server.Packets.SyncPacket
use inferno_game_server.Packets.SyncPacket.{SyncHeader}

-- struct objective_update
pub record ObjectiveUpdate : Type 0 where
  pub id : ℕ  -- uint16_t
  pub health : ℕ  -- uint16_t
  pub max_health : ℕ  -- uint16_t
  pub x : ℕ  -- uint32_t
  pub y : ℕ  -- uint32_t
  pub z : ℕ  -- uint32_t
  pub auto_target : ℕ  -- uint16_t

-- The members of the object, those of its base classes first.
pub record IObjectivePacket : Type 0 where
  pub header : PacketHeader
  pub s_header : SyncHeader
  pub obj_data : ObjectiveUpdate

unfoldable pub serialize : IObjectivePacket → Buffer → Buffer
unfolding SyncPacket.add_header
serialize p b =
    let c = p.obj_data in
    let b1 = store 0 2 c.id b in
    let b2 = store 2 2 c.health b1 in
    let b3 = store 4 2 c.max_health b2 in
    let b4 = store 6 4 c.x b3 in
    let b5 = store 10 4 c.y b4 in
    let b6 = store 14 4 c.z b5 in
    let b7 = store 18 2 c.auto_target b6 in SyncPacket.add_header p.header p.s_header 20 b7

unfoldable pub deserialize : ℕ → Buffer → ObjectiveUpdate
deserialize tail b = record {
  auto_target = load (tail - 2) 2 b;
  z = load (tail - 6) 4 b;
  y = load (tail - 10) 4 b;
  x = load (tail - 14) 4 b;
  max_health = load (tail - 16) 2 b;
  health = load (tail - 18) 2 b;
  id = load (tail - 20) 2 b;
}

unfoldable pub get_packet_size : ℕ
unfolding Packet.get_header_size
get_packet_size = 20 + Packet.get_header_size

-- The values that the fields' types can hold.
pub record Fits (p : IObjectivePacket) : Type 0 where
  pub sized : IsSized p.header
  pub id : p.obj_data.id < 65536
  pub health : p.obj_data.health < 65536
  pub max_health : p.obj_data.max_health < 65536
  pub x : p.obj_data.x < 4294967296
  pub y : p.obj_data.y < 4294967296
  pub z : p.obj_data.z < 4294967296
  pub auto_target : p.obj_data.auto_target < 65536

pub deserialize-serialize :
    (p : IObjectivePacket) (b : Buffer) → Fits p → deserialize 20 (serialize p b) ≡ p.obj_data
unfolding deserialize serialize
deserialize-serialize p b h = λ i. record {
  id = bytes_2 p.obj_data.id h.id i;
  health = bytes_2 p.obj_data.health h.health i;
  max_health = bytes_2 p.obj_data.max_health h.max_health i;
  x = bytes_4 p.obj_data.x h.x i;
  y = bytes_4 p.obj_data.y h.y i;
  z = bytes_4 p.obj_data.z h.z i;
  auto_target = bytes_2 p.obj_data.auto_target h.auto_target i;
}

pub packet-serialize :
    (p : IObjectivePacket) (b : Buffer) (h : PacketHeader)
    → Fits p
    → Packet.deserialize 32 (serialize p b) h ≡ (20, record p.header { type = h.type })
unfolding Packet.deserialize serialize
packet-serialize p b h f = split-joined 20 p.header h f.sized

pub serialize-AgreeFrom : (p : IObjectivePacket) (b : Buffer) → AgreeFrom 32 (serialize p b) b
unfolding serialize
serialize-AgreeFrom p b = λ a h. ground arith

pub packet_room : 20 + 12 < get_packet_size
unfolding get_packet_size
packet_room = omega arith

abbrev pub codec : Codec
codec = record {
  Obj = IObjectivePacket;
  Content = ObjectiveUpdate;
  Fits = Fits;
  header = λ p. p.header;
  content = λ p. p.obj_data;
  size = 20;
  packet_size = get_packet_size;
  serialize = serialize;
  deserialize = deserialize;
  content_back = deserialize-serialize;
  header_back = packet-serialize;
  untouched = serialize-AgreeFrom;
  room = packet_room;
}
