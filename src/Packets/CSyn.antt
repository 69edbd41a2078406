-- ===== src/Packets/CSyn.antt =====
-- Packets/C_SYN_Packet.h and C_SYN_Packet.cxx.
use inferno_game_server.Base.{ℕ, ◌+◌, ◌-◌, ◌<◌, ◌≡◌, arith}
use inferno_game_server.Packets.Codec.{Codec}
use inferno_game_server.Packets.Memory.{Buffer, store, load, AgreeFrom, byte_1}
use inferno_game_server.Packets.Packet
use inferno_game_server.Packets.Packet.{PacketHeader, IsSized, split-joined}
use inferno_game_server.Packets.ProtocolPacket
use inferno_game_server.Packets.ProtocolPacket.{ProtocolHeader}

-- struct syn_request
pub record SynRequest : Type 0 where
  pub req : ℕ  -- syn_type
  pub conf_number : ℕ  -- uint8_t

-- The members of the object, those of its base classes first.
pub record CSynPacket : Type 0 where
  pub header : PacketHeader
  pub pr_header : ProtocolHeader
  pub syn_content : SynRequest

unfoldable pub serialize : CSynPacket → Buffer → Buffer
unfolding ProtocolPacket.add_header
serialize p b =
    let c = p.syn_content in
    let b1 = store 0 1 c.req b in
    let b2 = store 1 1 c.conf_number b1 in ProtocolPacket.add_header p.header p.pr_header 2 b2

unfoldable pub deserialize : ℕ → Buffer → SynRequest
deserialize tail b = record { conf_number = load (tail - 1) 1 b; req = load (tail - 2) 1 b }

unfoldable pub get_packet_size : ℕ
unfolding ProtocolPacket.get_header_size
get_packet_size = 2 + ProtocolPacket.get_header_size

-- The values that the fields' types can hold.
pub record Fits (p : CSynPacket) : Type 0 where
  pub sized : IsSized p.header
  pub req : p.syn_content.req < 256
  pub conf_number : p.syn_content.conf_number < 256

pub deserialize-serialize :
    (p : CSynPacket) (b : Buffer) → Fits p → deserialize 2 (serialize p b) ≡ p.syn_content
unfolding deserialize serialize
deserialize-serialize p b h = λ i. record {
  req = byte_1 p.syn_content.req h.req i;
  conf_number = byte_1 p.syn_content.conf_number h.conf_number i;
}

pub packet-serialize :
    (p : CSynPacket) (b : Buffer) (h : PacketHeader)
    → Fits p
    → Packet.deserialize 14 (serialize p b) h ≡ (2, record p.header { type = h.type })
unfolding Packet.deserialize serialize
packet-serialize p b h f = split-joined 2 p.header h f.sized

pub serialize-AgreeFrom : (p : CSynPacket) (b : Buffer) → AgreeFrom 14 (serialize p b) b
unfolding serialize
serialize-AgreeFrom p b = λ a h. ground arith

pub packet_room : 2 + 12 < get_packet_size
unfolding get_packet_size
packet_room = omega arith

abbrev pub codec : Codec
codec = record {
  Obj = CSynPacket;
  Content = SynRequest;
  Fits = Fits;
  header = λ p. p.header;
  content = λ p. p.syn_content;
  size = 2;
  packet_size = get_packet_size;
  serialize = serialize;
  deserialize = deserialize;
  content_back = deserialize-serialize;
  header_back = packet-serialize;
  untouched = serialize-AgreeFrom;
  room = packet_room;
}
