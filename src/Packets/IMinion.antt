-- ===== src/Packets/IMinion.antt =====
-- Packets/I_Minion_Packet.h and I_Minion_Packet.cxx.
use inferno_game_server.Base.{ℕ, ◌+◌, ◌-◌, ◌<◌, ◌≡◌, arith, ◌*◌, ◌/◌, ◌%◌}
use inferno_game_server.Packets.Memory.{Buffer, store, load, AgreeFrom}
use inferno_game_server.Packets.Packet
use inferno_game_server.Packets.Packet.{PacketHeader, IsSized, split-joined}
use inferno_game_server.Packets.SyncPacket
use inferno_game_server.Packets.SyncPacket.{SyncHeader}

-- struct minion_update
pub record MinionUpdate : Type 0 where
  pub id : ℕ  -- uint16_t
  pub health : ℕ  -- uint16_t
  pub max_health : ℕ  -- uint16_t
  pub x : ℕ  -- uint32_t
  pub y : ℕ  -- uint32_t
  pub z : ℕ  -- uint32_t
  pub rot_x : ℕ  -- uint32_t
  pub rot_y : ℕ  -- uint32_t
  pub rot_z : ℕ  -- uint32_t
  pub auto_target : ℕ  -- uint16_t

-- The members of the object, those of its base classes first.
pub record IMinionPacket : Type 0 where
  pub header : PacketHeader
  pub s_header : SyncHeader
  pub minion_data : MinionUpdate

unfoldable pub serialize : IMinionPacket → Buffer → Buffer
unfolding SyncPacket.add_header
serialize p b =
    let c = p.minion_data in
    let b1 = store 0 2 c.id b in
    let b2 = store 2 2 c.health b1 in
    let b3 = store 4 2 c.max_health b2 in
    let b4 = store 6 4 c.x b3 in
    let b5 = store 10 4 c.y b4 in
    let b6 = store 14 4 c.z b5 in
    let b7 = store 16 4 c.rot_x b6 in
    let b8 = store 20 4 c.rot_y b7 in
    let b9 = store 24 4 c.rot_z b8 in
    let b10 = store 28 2 c.auto_target b9 in SyncPacket.add_header p.header p.s_header 30 b10

unfoldable pub deserialize : ℕ → Buffer → MinionUpdate
deserialize tail b = record {
  auto_target = load (tail - 2) 2 b;
  rot_z = load (tail - 6) 4 b;
  rot_y = load (tail - 10) 4 b;
  rot_x = load (tail - 14) 4 b;
  z = load (tail - 18) 4 b;
  y = load (tail - 22) 4 b;
  x = load (tail - 24) 4 b;
  max_health = load (tail - 26) 2 b;
  health = load (tail - 28) 2 b;
  id = load (tail - 30) 2 b;
}

unfoldable pub get_packet_size : ℕ
unfolding Packet.get_header_size
get_packet_size = 30 + Packet.get_header_size

-- The values that the fields' types can hold.
pub record Fits (p : IMinionPacket) : Type 0 where
  pub sized : IsSized p.header
  pub id : p.minion_data.id < 65536
  pub health : p.minion_data.health < 65536
  pub max_health : p.minion_data.max_health < 65536
  pub x : p.minion_data.x < 4294967296
  pub y : p.minion_data.y < 4294967296
  pub z : p.minion_data.z < 4294967296
  pub rot_x : p.minion_data.rot_x < 4294967296
  pub rot_y : p.minion_data.rot_y < 4294967296
  pub rot_z : p.minion_data.rot_z < 4294967296
  pub auto_target : p.minion_data.auto_target < 65536

pub packet-serialize :
    (p : IMinionPacket) (b : Buffer) (h : PacketHeader)
    → Fits p
    → Packet.deserialize 42 (serialize p b) h ≡ (30, record p.header { type = h.type })
unfolding Packet.deserialize serialize
packet-serialize p b h f = split-joined 30 p.header h f.sized

pub serialize-AgreeFrom : (p : IMinionPacket) (b : Buffer) → AgreeFrom 42 (serialize p b) b
unfolding serialize
serialize-AgreeFrom p b = λ a h. ground arith

-- A minion update that is sent and read back keeps every field but `y` and `z`: `y` comes back as the
-- high half of `x` below the low half of `y`, and `z` as the high half of `y` below the low half of
-- `z`, whenever the fields are in the range of their types.
pub minion_misread :
    (p : IMinionPacket) (b : Buffer)
    → Fits p
    → deserialize 30 (serialize p b) ≡ record p.minion_data {
      y = p.minion_data.x / 65536 + 65536 * (p.minion_data.y % 65536);
      z = p.minion_data.y / 65536 + 65536 * (p.minion_data.z % 65536);
    }
unfolding deserialize serialize
minion_misread p b h = ground arith
