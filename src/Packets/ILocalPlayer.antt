-- ===== src/Packets/ILocalPlayer.antt =====
-- Packets/I_Local_Player_Packet.h and I_Local_Player_Packet.cxx.
use inferno_game_server.Base.{ℕ, ◌+◌, ◌-◌, ◌<◌, ◌≡◌, arith}
use inferno_game_server.Packets.Codec.{Codec}
use inferno_game_server.Packets.Memory.{Buffer, store, load, AgreeFrom, byte_1, bytes_2, bytes_4}
use inferno_game_server.Packets.Packet
use inferno_game_server.Packets.Packet.{PacketHeader, IsSized, split-joined}
use inferno_game_server.Packets.SyncPacket
use inferno_game_server.Packets.SyncPacket.{SyncHeader}

-- struct player_update
pub record PlayerUpdate : Type 0 where
  pub player_id : ℕ  -- uint16_t
  pub gold : ℕ  -- uint16_t
  pub health : ℕ  -- uint16_t
  pub max_health : ℕ  -- uint16_t
  pub mana : ℕ  -- uint16_t
  pub max_mana : ℕ  -- uint16_t
  pub cs : ℕ  -- uint16_t
  pub experience : ℕ  -- uint32_t
  pub x : ℕ  -- uint32_t
  pub y : ℕ  -- uint32_t
  pub z : ℕ  -- uint32_t
  pub rot_x : ℕ  -- uint32_t
  pub rot_y : ℕ  -- uint32_t
  pub rot_z : ℕ  -- uint32_t
  pub auto_target : ℕ  -- uint16_t
  pub respawn_timer : ℕ  -- uint8_t
  pub level : ℕ  -- uint8_t

-- The members of the object, those of its base classes first.
pub record ILocalPlayerPacket : Type 0 where
  pub header : PacketHeader
  pub s_header : SyncHeader
  pub player_data : PlayerUpdate

unfoldable pub serialize : ILocalPlayerPacket → Buffer → Buffer
unfolding SyncPacket.add_header
serialize p b =
    let c = p.player_data in
    let b1 = store 0 2 c.player_id b in
    let b2 = store 2 2 c.gold b1 in
    let b3 = store 4 2 c.health b2 in
    let b4 = store 6 2 c.max_health b3 in
    let b5 = store 8 2 c.mana b4 in
    let b6 = store 10 2 c.max_mana b5 in
    let b7 = store 12 2 c.cs b6 in
    let b8 = store 14 4 c.experience b7 in
    let b9 = store 18 4 c.x b8 in
    let b10 = store 22 4 c.y b9 in
    let b11 = store 26 4 c.z b10 in
    let b12 = store 30 4 c.rot_x b11 in
    let b13 = store 34 4 c.rot_y b12 in
    let b14 = store 38 4 c.rot_z b13 in
    let b15 = store 42 2 c.auto_target b14 in
    let b16 = store 44 1 c.respawn_timer b15 in
    let b17 = store 45 1 c.level b16 in SyncPacket.add_header p.header p.s_header 46 b17

unfoldable pub deserialize : ℕ → Buffer → PlayerUpdate
deserialize tail b = record {
  level = load (tail - 1) 1 b;
  respawn_timer = load (tail - 2) 1 b;
  auto_target = load (tail - 4) 2 b;
  rot_z = load (tail - 8) 4 b;
  rot_y = load (tail - 12) 4 b;
  rot_x = load (tail - 16) 4 b;
  z = load (tail - 20) 4 b;
  y = load (tail - 24) 4 b;
  x = load (tail - 28) 4 b;
  experience = load (tail - 32) 4 b;
  cs = load (tail - 34) 2 b;
  max_mana = load (tail - 36) 2 b;
  mana = load (tail - 38) 2 b;
  max_health = load (tail - 40) 2 b;
  health = load (tail - 42) 2 b;
  gold = load (tail - 44) 2 b;
  player_id = load (tail - 46) 2 b;
}

unfoldable pub get_packet_size : ℕ
unfolding Packet.get_header_size
get_packet_size = 46 + Packet.get_header_size

-- The values that the fields' types can hold.
pub record Fits (p : ILocalPlayerPacket) : Type 0 where
  pub sized : IsSized p.header
  pub player_id : p.player_data.player_id < 65536
  pub gold : p.player_data.gold < 65536
  pub health : p.player_data.health < 65536
  pub max_health : p.player_data.max_health < 65536
  pub mana : p.player_data.mana < 65536
  pub max_mana : p.player_data.max_mana < 65536
  pub cs : p.player_data.cs < 65536
  pub experience : p.player_data.experience < 4294967296
  pub x : p.player_data.x < 4294967296
  pub y : p.player_data.y < 4294967296
  pub z : p.player_data.z < 4294967296
  pub rot_x : p.player_data.rot_x < 4294967296
  pub rot_y : p.player_data.rot_y < 4294967296
  pub rot_z : p.player_data.rot_z < 4294967296
  pub auto_target : p.player_data.auto_target < 65536
  pub respawn_timer : p.player_data.respawn_timer < 256
  pub level : p.player_data.level < 256

pub deserialize-serialize :
    (p : ILocalPlayerPacket) (b : Buffer) → Fits p → deserialize 46 (serialize p b) ≡ p.player_data
unfolding deserialize serialize
deserialize-serialize p b h = λ i. record {
  player_id = bytes_2 p.player_data.player_id h.player_id i;
  gold = bytes_2 p.player_data.gold h.gold i;
  health = bytes_2 p.player_data.health h.health i;
  max_health = bytes_2 p.player_data.max_health h.max_health i;
  mana = bytes_2 p.player_data.mana h.mana i;
  max_mana = bytes_2 p.player_data.max_mana h.max_mana i;
  cs = bytes_2 p.player_data.cs h.cs i;
  experience = bytes_4 p.player_data.experience h.experience i;
  x = bytes_4 p.player_data.x h.x i;
  y = bytes_4 p.player_data.y h.y i;
  z = bytes_4 p.player_data.z h.z i;
  rot_x = bytes_4 p.player_data.rot_x h.rot_x i;
  rot_y = bytes_4 p.player_data.rot_y h.rot_y i;
  rot_z = bytes_4 p.player_data.rot_z h.rot_z i;
  auto_target = bytes_2 p.player_data.auto_target h.auto_target i;
  respawn_timer = byte_1 p.player_data.respawn_timer h.respawn_timer i;
  level = byte_1 p.player_data.level h.level i;
}

pub packet-serialize :
    (p : ILocalPlayerPacket) (b : Buffer) (h : PacketHeader)
    → Fits p
    → Packet.deserialize 58 (serialize p b) h ≡ (46, record p.header { type = h.type })
unfolding Packet.deserialize serialize
packet-serialize p b h f = split-joined 46 p.header h f.sized

pub serialize-AgreeFrom : (p : ILocalPlayerPacket) (b : Buffer) → AgreeFrom 58 (serialize p b) b
unfolding serialize
serialize-AgreeFrom p b = λ a h. ground arith steps 10000000

pub packet_room : 46 + 12 < get_packet_size
unfolding get_packet_size
packet_room = omega arith

abbrev pub codec : Codec
codec = record {
  Obj = ILocalPlayerPacket;
  Content = PlayerUpdate;
  Fits = Fits;
  header = λ p. p.header;
  content = λ p. p.player_data;
  size = 46;
  packet_size = get_packet_size;
  serialize = serialize;
  deserialize = deserialize;
  content_back = deserialize-serialize;
  header_back = packet-serialize;
  untouched = serialize-AgreeFrom;
  room = packet_room;
}
