-- ===== src/Packets/GAutoNotify.antt =====
-- Packets/G_Auto_Notify_Packet.h and G_Auto_Notify_Packet.cxx.
use inferno_game_server.Base.{ℕ, ◌+◌, ◌-◌, ◌<◌, ◌≡◌, arith}
use inferno_game_server.Packets.Codec.{Codec}
use inferno_game_server.Packets.Memory.{Buffer, store, load, AgreeFrom, byte_1, bytes_2}
use inferno_game_server.Packets.Packet
use inferno_game_server.Packets.Packet.{PacketHeader, IsSized, split-joined}
use inferno_game_server.Packets.EventPacket
use inferno_game_server.Packets.EventPacket.{EventHeader}

-- struct auto_notify
pub record AutoNotify : Type 0 where
  pub target : ℕ  -- uint16_t
  pub experience : ℕ  -- uint16_t
  pub damage : ℕ  -- uint16_t
  pub conf : ℕ  -- uint8_t

-- The members of the object, those of its base classes first.
pub record GAutoNotifyPacket : Type 0 where
  pub header : PacketHeader
  pub e_header : EventHeader
  pub auto_confirm : AutoNotify

unfoldable pub serialize : GAutoNotifyPacket → Buffer → Buffer
unfolding EventPacket.add_header
serialize p b =
    let c = p.auto_confirm in
    let b1 = store 0 2 c.target b in
    let b2 = store 2 2 c.experience b1 in
    let b3 = store 4 2 c.damage b2 in
    let b4 = store 6 1 c.conf b3 in EventPacket.add_header p.header p.e_header 7 b4

unfoldable pub deserialize : ℕ → Buffer → AutoNotify
deserialize tail b = record {
  conf = load (tail - 1) 1 b;
  damage = load (tail - 3) 2 b;
  experience = load (tail - 5) 2 b;
  target = load (tail - 7) 2 b;
}

unfoldable pub get_packet_size : ℕ
unfolding EventPacket.get_header_size
get_packet_size = 7 + EventPacket.get_header_size

-- The values that the fields' types can hold.
pub record Fits (p : GAutoNotifyPacket) : Type 0 where
  pub sized : IsSized p.header
  pub target : p.auto_confirm.target < 65536
  pub experience : p.auto_confirm.experience < 65536
  pub damage : p.auto_confirm.damage < 65536
  pub conf : p.auto_confirm.conf < 256

pub deserialize-serialize :
    (p : GAutoNotifyPacket) (b : Buffer) → Fits p → deserialize 7 (serialize p b) ≡ p.auto_confirm
unfolding deserialize serialize
deserialize-serialize p b h = λ i. record {
  target = bytes_2 p.auto_confirm.target h.target i;
  experience = bytes_2 p.auto_confirm.experience h.experience i;
  damage = bytes_2 p.auto_confirm.damage h.damage i;
  conf = byte_1 p.auto_confirm.conf h.conf i;
}

pub packet-serialize :
    (p : GAutoNotifyPacket) (b : Buffer) (h : PacketHeader)
    → Fits p
    → Packet.deserialize 19 (serialize p b) h ≡ (7, record p.header { type = h.type })
unfolding Packet.deserialize serialize
packet-serialize p b h f = split-joined 7 p.header h f.sized

pub serialize-AgreeFrom : (p : GAutoNotifyPacket) (b : Buffer) → AgreeFrom 19 (serialize p b) b
unfolding serialize
serialize-AgreeFrom p b = λ a h. ground arith

pub packet_room : 7 + 12 < get_packet_size
unfolding get_packet_size
packet_room = omega arith

abbrev pub codec : Codec
codec = record {
  Obj = GAutoNotifyPacket;
  Content = AutoNotify;
  Fits = Fits;
  header = λ p. p.header;
  content = λ p. p.auto_confirm;
  size = 7;
  packet_size = get_packet_size;
  serialize = serialize;
  deserialize = deserialize;
  content_back = deserialize-serialize;
  header_back = packet-serialize;
  untouched = serialize-AgreeFrom;
  room = packet_room;
}
