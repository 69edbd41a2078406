-- ===== src/Packets/GMoveNotify.antt =====
-- Packets/G_Move_Notify_Packet.h and G_Move_Notify_Packet.cxx.
use inferno_game_server.Base.{ℕ, ◌+◌, ◌-◌, ◌<◌, ◌≡◌, arith}
use inferno_game_server.Packets.Codec.{Codec}
use inferno_game_server.Packets.Memory.{Buffer, store, load, AgreeFrom, byte_1, bytes_4}
use inferno_game_server.Packets.Packet
use inferno_game_server.Packets.Packet.{PacketHeader, IsSized, split-joined}
use inferno_game_server.Packets.EventPacket
use inferno_game_server.Packets.EventPacket.{EventHeader}

-- struct move_notify
pub record MoveNotify : Type 0 where
  pub x : ℕ  -- uint32_t
  pub y : ℕ  -- uint32_t
  pub z : ℕ  -- uint32_t
  pub conf : ℕ  -- uint8_t

-- The members of the object, those of its base classes first.
pub record GMoveNotifyPacket : Type 0 where
  pub header : PacketHeader
  pub e_header : EventHeader
  pub move : MoveNotify

unfoldable pub serialize : GMoveNotifyPacket → Buffer → Buffer
unfolding EventPacket.add_header
serialize p b =
    let c = p.move in
    let b1 = store 0 4 c.x b in
    let b2 = store 4 4 c.y b1 in
    let b3 = store 8 4 c.z b2 in
    let b4 = store 12 1 c.conf b3 in EventPacket.add_header p.header p.e_header 13 b4

unfoldable pub deserialize : ℕ → Buffer → MoveNotify
deserialize tail b = record {
  conf = load (tail - 1) 1 b;
  z = load (tail - 5) 4 b;
  y = load (tail - 9) 4 b;
  x = load (tail - 13) 4 b;
}

unfoldable pub get_packet_size : ℕ
unfolding EventPacket.get_header_size
get_packet_size = 13 + EventPacket.get_header_size

-- The values that the fields' types can hold.
pub record Fits (p : GMoveNotifyPacket) : Type 0 where
  pub sized : IsSized p.header
  pub x : p.move.x < 4294967296
  pub y : p.move.y < 4294967296
  pub z : p.move.z < 4294967296
  pub conf : p.move.conf < 256

pub deserialize-serialize :
    (p : GMoveNotifyPacket) (b : Buffer) → Fits p → deserialize 13 (serialize p b) ≡ p.move
unfolding deserialize serialize
deserialize-serialize p b h = λ i. record {
  x = bytes_4 p.move.x h.x i;
  y = bytes_4 p.move.y h.y i;
  z = bytes_4 p.move.z h.z i;
  conf = byte_1 p.move.conf h.conf i;
}

pub packet-serialize :
    (p : GMoveNotifyPacket) (b : Buffer) (h : PacketHeader)
    → Fits p
    → Packet.deserialize 25 (serialize p b) h ≡ (13, record p.header { type = h.type })
unfolding Packet.deserialize serialize
packet-serialize p b h f = split-joined 13 p.header h f.sized

pub serialize-AgreeFrom : (p : GMoveNotifyPacket) (b : Buffer) → AgreeFrom 25 (serialize p b) b
unfolding serialize
serialize-AgreeFrom p b = λ a h. ground arith

pub packet_room : 13 + 12 < get_packet_size
unfolding get_packet_size
packet_room = omega arith

abbrev pub codec : Codec
codec = record {
  Obj = GMoveNotifyPacket;
  Content = MoveNotify;
  Fits = Fits;
  header = λ p. p.header;
  content = λ p. p.move;
  size = 13;
  packet_size = get_packet_size;
  serialize = serialize;
  deserialize = deserialize;
  content_back = deserialize-serialize;
  header_back = packet-serialize;
  untouched = serialize-AgreeFrom;
  room = packet_room;
}
