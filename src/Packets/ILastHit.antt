-- ===== src/Packets/ILastHit.antt =====
-- Packets/I_LastHit_Packet.h and I_LastHit_Packet.cxx.
use inferno_game_server.Base.{ℕ, ◌+◌, ◌-◌, ◌<◌, ◌≡◌, arith}
use inferno_game_server.Packets.Codec.{Codec}
use inferno_game_server.Packets.Memory.{Buffer, store, load, AgreeFrom, byte_1, bytes_2}
use inferno_game_server.Packets.Packet
use inferno_game_server.Packets.Packet.{PacketHeader, IsSized, split-joined}
use inferno_game_server.Packets.SyncPacket
use inferno_game_server.Packets.SyncPacket.{SyncHeader}

-- struct lasthit_update
pub record LastHitUpdate : Type 0 where
  pub attacker_id : ℕ  -- uint16_t
  pub target_id : ℕ  -- uint16_t
  pub kill : ℕ  -- kill_type

-- The members of the object, those of its base classes first.
pub record ILastHitPacket : Type 0 where
  pub header : PacketHeader
  pub s_header : SyncHeader
  pub lh_data : LastHitUpdate

unfoldable pub serialize : ILastHitPacket → Buffer → Buffer
unfolding SyncPacket.add_header
serialize p b =
    let c = p.lh_data in
    let b1 = store 0 2 c.attacker_id b in
    let b2 = store 2 2 c.target_id b1 in
    let b3 = store 4 1 c.kill b2 in SyncPacket.add_header p.header p.s_header 5 b3

unfoldable pub deserialize : ℕ → Buffer → LastHitUpdate
deserialize tail b = record {
  kill = load (tail - 1) 1 b;
  target_id = load (tail - 3) 2 b;
  attacker_id = load (tail - 5) 2 b;
}

unfoldable pub get_packet_size : ℕ
unfolding Packet.get_header_size
get_packet_size = 5 + Packet.get_header_size

-- The values that the fields' types can hold.
pub record Fits (p : ILastHitPacket) : Type 0 where
  pub sized : IsSized p.header
  pub attacker_id : p.lh_data.attacker_id < 65536
  pub target_id : p.lh_data.target_id < 65536
  pub kill : p.lh_data.kill < 256

pub deserialize-serialize :
    (p : ILastHitPacket) (b : Buffer) → Fits p → deserialize 5 (serialize p b) ≡ p.lh_data
unfolding deserialize serialize
deserialize-serialize p b h = λ i. record {
  attacker_id = bytes_2 p.lh_data.attacker_id h.attacker_id i;
  target_id = bytes_2 p.lh_data.target_id h.target_id i;
  kill = byte_1 p.lh_data.kill h.kill i;
}

pub packet-serialize :
    (p : ILastHitPacket) (b : Buffer) (h : PacketHeader)
    → Fits p
    → Packet.deserialize 17 (serialize p b) h ≡ (5, record p.header { type = h.type })
unfolding Packet.deserialize serialize
packet-serialize p b h f = split-joined 5 p.header h f.sized

pub serialize-AgreeFrom : (p : ILastHitPacket) (b : Buffer) → AgreeFrom 17 (serialize p b) b
unfolding serialize
serialize-AgreeFrom p b = λ a h. ground arith

pub packet_room : 5 + 12 < get_packet_size
unfolding get_packet_size
packet_room = omega arith

abbrev pub codec : Codec
codec = record {
  Obj = ILastHitPacket;
  Content = LastHitUpdate;
  Fits = Fits;
  header = λ p. p.header;
  content = λ p. p.lh_data;
  size = 5;
  packet_size = get_packet_size;
  serialize = serialize;
  deserialize = deserialize;
  content_back = deserialize-serialize;
  header_back = packet-serialize;
  untouched = serialize-AgreeFrom;
  room = packet_room;
}
