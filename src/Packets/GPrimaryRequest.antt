-- ===== src/Packets/GPrimaryRequest.antt =====
-- Packets/G_Primary_Request_Packet.h and G_Primary_Request_Packet.cxx.
use inferno_game_server.Base.{ℕ, ◌+◌, ◌-◌, ◌<◌, ◌≡◌, arith}
use inferno_game_server.Packets.Codec.{Codec}
use inferno_game_server.Packets.Memory.{Buffer, store, load, AgreeFrom, byte_1, bytes_4}
use inferno_game_server.Packets.Packet
use inferno_game_server.Packets.Packet.{PacketHeader, IsSized, split-joined}
use inferno_game_server.Packets.EventPacket
use inferno_game_server.Packets.EventPacket.{EventHeader}

-- struct primary_request
pub record PrimaryRequest : Type 0 where
  pub p_attack : ℕ  -- attack_type
  pub player_x : ℕ  -- uint32_t
  pub player_y : ℕ  -- uint32_t
  pub player_z : ℕ  -- uint32_t
  pub target_x : ℕ  -- uint32_t
  pub target_y : ℕ  -- uint32_t
  pub target_z : ℕ  -- uint32_t

-- The members of the object, those of its base classes first.
pub record GPrimaryRequestPacket : Type 0 where
  pub header : PacketHeader
  pub e_header : EventHeader
  pub attack : PrimaryRequest

unfoldable pub serialize : GPrimaryRequestPacket → Buffer → Buffer
unfolding EventPacket.add_header
serialize p b =
    let c = p.attack in
    let b1 = store 0 1 c.p_attack b in
    let b2 = store 1 4 c.player_x b1 in
    let b3 = store 5 4 c.player_y b2 in
    let b4 = store 9 4 c.player_z b3 in
    let b5 = store 13 4 c.target_x b4 in
    let b6 = store 17 4 c.target_y b5 in
    let b7 = store 21 4 c.target_z b6 in EventPacket.add_header p.header p.e_header 25 b7

unfoldable pub deserialize : ℕ → Buffer → PrimaryRequest
deserialize tail b = record {
  target_z = load (tail - 4) 4 b;
  target_y = load (tail - 8) 4 b;
  target_x = load (tail - 12) 4 b;
  player_z = load (tail - 16) 4 b;
  player_y = load (tail - 20) 4 b;
  player_x = load (tail - 24) 4 b;
  p_attack = load (tail - 25) 1 b;
}

unfoldable pub get_packet_size : ℕ
unfolding EventPacket.get_header_size
get_packet_size = 25 + EventPacket.get_header_size

-- The values that the fields' types can hold.
pub record Fits (p : GPrimaryRequestPacket) : Type 0 where
  pub sized : IsSized p.header
  pub p_attack : p.attack.p_attack < 256
  pub player_x : p.attack.player_x < 4294967296
  pub player_y : p.attack.player_y < 4294967296
  pub player_z : p.attack.player_z < 4294967296
  pub target_x : p.attack.target_x < 4294967296
  pub target_y : p.attack.target_y < 4294967296
  pub target_z : p.attack.target_z < 4294967296

pub deserialize-serialize :
    (p : GPrimaryRequestPacket) (b : Buffer) → Fits p → deserialize 25 (serialize p b) ≡ p.attack
unfolding deserialize serialize
deserialize-serialize p b h = λ i. record {
  p_attack = byte_1 p.attack.p_attack h.p_attack i;
  player_x = bytes_4 p.attack.player_x h.player_x i;
  player_y = bytes_4 p.attack.player_y h.player_y i;
  player_z = bytes_4 p.attack.player_z h.player_z i;
  target_x = bytes_4 p.attack.target_x h.target_x i;
  target_y = bytes_4 p.attack.target_y h.target_y i;
  target_z = bytes_4 p.attack.target_z h.target_z i;
}

pub packet-serialize :
    (p : GPrimaryRequestPacket) (b : Buffer) (h : PacketHeader)
    → Fits p
    → Packet.deserialize 37 (serialize p b) h ≡ (25, record p.header { type = h.type })
unfolding Packet.deserialize serialize
packet-serialize p b h f = split-joined 25 p.header h f.sized

pub serialize-AgreeFrom : (p : GPrimaryRequestPacket) (b : Buffer) → AgreeFrom 37 (serialize p b) b
unfolding serialize
serialize-AgreeFrom p b = λ a h. ground arith

pub packet_room : 25 + 12 < get_packet_size
unfolding get_packet_size
packet_room = omega arith

abbrev pub codec : Codec
codec = record {
  Obj = GPrimaryRequestPacket;
  Content = PrimaryRequest;
  Fits = Fits;
  header = λ p. p.header;
  content = λ p. p.attack;
  size = 25;
  packet_size = get_packet_size;
  serialize = serialize;
  deserialize = deserialize;
  content_back = deserialize-serialize;
  header_back = packet-serialize;
  untouched = serialize-AgreeFrom;
  room = packet_room;
}
