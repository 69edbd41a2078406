-- ===== src/Packets/GPrimaryNotify.antt =====
-- Packets/G_Primary_Notify_Packet.h and G_Primary_Notify_Packet.cxx.
use inferno_game_server.Base.{ℕ, ◌+◌, ◌-◌, ◌<◌, ◌≡◌, arith}
use inferno_game_server.Packets.Codec.{Codec}
use inferno_game_server.Packets.Memory.{Buffer, store, load, AgreeFrom, byte_1, bytes_4}
use inferno_game_server.Packets.Packet
use inferno_game_server.Packets.Packet.{PacketHeader, IsSized, split-joined}
use inferno_game_server.Packets.EventPacket
use inferno_game_server.Packets.EventPacket.{EventHeader}

-- struct primary_notify
pub record PrimaryNotify : Type 0 where
  pub p_attack : ℕ  -- attack_type
  pub player_x : ℕ  -- uint32_t
  pub player_y : ℕ  -- uint32_t
  pub player_z : ℕ  -- uint32_t
  pub target_x : ℕ  -- uint32_t
  pub target_y : ℕ  -- uint32_t
  pub target_z : ℕ  -- uint32_t
  pub experience : ℕ  -- uint16_t
  pub conf : ℕ  -- uint8_t

-- The members of the object, those of its base classes first.
pub record GPrimaryNotifyPacket : Type 0 where
  pub header : PacketHeader
  pub e_header : EventHeader
  pub attack : PrimaryNotify

unfoldable pub serialize : GPrimaryNotifyPacket → Buffer → Buffer
unfolding EventPacket.add_header
serialize p b =
    let c = p.attack in
    let b1 = store 0 1 c.p_attack b in
    let b2 = store 1 4 c.player_x b1 in
    let b3 = store 5 4 c.player_y b2 in
    let b4 = store 9 4 c.player_z b3 in
    let b5 = store 13 4 c.target_x b4 in
    let b6 = store 17 4 c.target_y b5 in
    let b7 = store 21 4 c.target_z b6 in
    let b8 = store 25 1 c.conf b7 in EventPacket.add_header p.header p.e_header 26 b8

unfoldable pub deserialize : ℕ → Buffer → PrimaryNotify → PrimaryNotify
deserialize tail b content = record content {
  conf = load (tail - 1) 1 b;
  target_z = load (tail - 5) 4 b;
  target_y = load (tail - 9) 4 b;
  target_x = load (tail - 13) 4 b;
  player_z = load (tail - 17) 4 b;
  player_y = load (tail - 21) 4 b;
  player_x = load (tail - 25) 4 b;
  p_attack = load (tail - 26) 1 b;
}

unfoldable pub get_packet_size : ℕ
unfolding EventPacket.get_header_size
get_packet_size = 26 + EventPacket.get_header_size

-- The values that the fields' types can hold.
pub record Fits (p : GPrimaryNotifyPacket) : Type 0 where
  pub sized : IsSized p.header
  pub p_attack : p.attack.p_attack < 256
  pub player_x : p.attack.player_x < 4294967296
  pub player_y : p.attack.player_y < 4294967296
  pub player_z : p.attack.player_z < 4294967296
  pub target_x : p.attack.target_x < 4294967296
  pub target_y : p.attack.target_y < 4294967296
  pub target_z : p.attack.target_z < 4294967296
  pub conf : p.attack.conf < 256

pub deserialize-serialize :
    (p : GPrimaryNotifyPacket) (b : Buffer) (content : PrimaryNotify)
    → Fits p
    → deserialize 26 (serialize p b) content ≡ record p.attack { experience = content.experience }
unfolding deserialize serialize
deserialize-serialize p b content h = λ i. record {
  p_attack = byte_1 p.attack.p_attack h.p_attack i;
  player_x = bytes_4 p.attack.player_x h.player_x i;
  player_y = bytes_4 p.attack.player_y h.player_y i;
  player_z = bytes_4 p.attack.player_z h.player_z i;
  target_x = bytes_4 p.attack.target_x h.target_x i;
  target_y = bytes_4 p.attack.target_y h.target_y i;
  target_z = bytes_4 p.attack.target_z h.target_z i;
  conf = byte_1 p.attack.conf h.conf i;
  experience = content.experience;
}

pub packet-serialize :
    (p : GPrimaryNotifyPacket) (b : Buffer) (h : PacketHeader)
    → Fits p
    → Packet.deserialize 38 (serialize p b) h ≡ (26, record p.header { type = h.type })
unfolding Packet.deserialize serialize
packet-serialize p b h f = split-joined 26 p.header h f.sized

pub serialize-AgreeFrom : (p : GPrimaryNotifyPacket) (b : Buffer) → AgreeFrom 38 (serialize p b) b
unfolding serialize
serialize-AgreeFrom p b = λ a h. ground arith

pub packet_room : 26 + 12 < get_packet_size
unfolding get_packet_size
packet_room = omega arith

-- The receiver's struct comes first: `experience` is not sent, and keeps its value.
abbrev pub codec : PrimaryNotify → Codec
codec old = record {
  Obj = GPrimaryNotifyPacket;
  Content = PrimaryNotify;
  Fits = Fits;
  header = λ p. p.header;
  content = λ p. record p.attack { experience = old.experience };
  size = 26;
  packet_size = get_packet_size;
  serialize = serialize;
  deserialize = λ tail b. deserialize tail b old;
  content_back = λ p b f. deserialize-serialize p b old f;
  header_back = packet-serialize;
  untouched = serialize-AgreeFrom;
  room = packet_room;
}
