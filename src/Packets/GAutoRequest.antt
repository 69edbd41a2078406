-- ===== src/Packets/GAutoRequest.antt =====
-- Packets/G_Auto_Request_Packet.h and G_Auto_Request_Packet.cxx.
use inferno_game_server.Base.{ℕ, ◌+◌, ◌-◌, ◌<◌, ◌≡◌, arith}
use inferno_game_server.Packets.Codec.{Codec}
use inferno_game_server.Packets.Memory.{Buffer, store, load, AgreeFrom, bytes_2}
use inferno_game_server.Packets.Packet
use inferno_game_server.Packets.Packet.{PacketHeader, IsSized, split-joined}
use inferno_game_server.Packets.EventPacket
use inferno_game_server.Packets.EventPacket.{EventHeader}

-- struct auto_request
pub record AutoRequest : Type 0 where
  pub target : ℕ  -- uint16_t

-- The members of the object, those of its base classes first.
pub record GAutoRequestPacket : Type 0 where
  pub header : PacketHeader
  pub e_header : EventHeader
  pub auto_attack : AutoRequest

unfoldable pub serialize : GAutoRequestPacket → Buffer → Buffer
unfolding EventPacket.add_header
serialize p b =
    let c = p.auto_attack in
    let b1 = store 0 2 c.target b in EventPacket.add_header p.header p.e_header 2 b1

unfoldable pub deserialize : ℕ → Buffer → AutoRequest
deserialize tail b = record { target = load (tail - 2) 2 b }

unfoldable pub get_packet_size : ℕ
unfolding EventPacket.get_header_size
get_packet_size = 2 + EventPacket.get_header_size

-- The values that the fields' types can hold.
pub record Fits (p : GAutoRequestPacket) : Type 0 where
  pub sized : IsSized p.header
  pub target : p.auto_attack.target < 65536

pub deserialize-serialize :
    (p : GAutoRequestPacket) (b : Buffer) → Fits p → deserialize 2 (serialize p b) ≡ p.auto_attack
unfolding deserialize serialize
deserialize-serialize p b h = λ i. record { target = bytes_2 p.auto_attack.target h.target i }

pub packet-serialize :
    (p : GAutoRequestPacket) (b : Buffer) (h : PacketHeader)
    → Fits p
    → Packet.deserialize 14 (serialize p b) h ≡ (2, record p.header { type = h.type })
unfolding Packet.deserialize serialize
packet-serialize p b h f = split-joined 2 p.header h f.sized

pub serialize-AgreeFrom : (p : GAutoRequestPacket) (b : Buffer) → AgreeFrom 14 (serialize p b) b
unfolding serialize
serialize-AgreeFrom p b = λ a h. ground arith

pub packet_room : 2 + 12 < get_packet_size
unfolding get_packet_size
packet_room = omega arith

abbrev pub codec : Codec
codec = record {
  Obj = GAutoRequestPacket;
  Content = AutoRequest;
  Fits = Fits;
  header = λ p. p.header;
  content = λ p. p.auto_attack;
  size = 2;
  packet_size = get_packet_size;
  serialize = serialize;
  deserialize = deserialize;
  content_back = deserialize-serialize;
  header_back = packet-serialize;
  untouched = serialize-AgreeFrom;
  room = packet_room;
}
