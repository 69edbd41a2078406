-- ===== src/Packets/Codec.antt =====
-- What the packet classes have in common: a serialiser into a buffer of `get_packet_size` bytes, a
-- static deserialiser of the content, and the header behind the content. `receive` takes a datagram
-- apart in the order that the moving `tail` of Packets/Packet.cxx sets: the header, then the content.
use inferno_game_server.Base.{ℕ, ◌+◌, ◌<◌, ◌≡◌}
use inferno_game_server.Packets.Memory.{Buffer, AgreeFrom}
use inferno_game_server.Packets.Packet
use inferno_game_server.Packets.Packet.{PacketHeader}

pub record Codec : Type 1 where
  pub Obj : Type 0
  pub Content : Type 0
  pub Fits : Obj → Type 0
  pub header : Obj → PacketHeader
  pub content : Obj → Content
  pub size : ℕ
  pub packet_size : ℕ
  pub serialize : Obj → Buffer → Buffer
  pub deserialize : ℕ → Buffer → Content
  pub content_back : (p : Obj) (b : Buffer) → Fits p → deserialize size (serialize p b) ≡ content p
  pub header_back :
      (p : Obj) (b : Buffer) (h : PacketHeader)
      → Fits p
      → Packet.deserialize (size + 12) (serialize p b) h
        ≡ (size, record (header p) { type = h.type })
  pub untouched : (p : Obj) (b : Buffer) → AgreeFrom (size + 12) (serialize p b) b
  pub room : size + 12 < packet_size

module _ (c : Codec) where
  open c use {Obj, Content, Fits, header, content, size, serialize, deserialize}

  unfoldable pub receive : ℕ → Buffer → PacketHeader → PacketHeader × Content
  receive tail b h = let (tail', h') = Packet.deserialize tail b h in (h', deserialize tail' b)

  pub receive-serialize :
      (p : Obj) (b : Buffer) (h : PacketHeader)
      → Fits p
      → receive (size + 12) (serialize p b) h ≡ (record (header p) { type = h.type }, content p)
  unfolding receive
  receive-serialize p b h fits = rw (c.header_back p b h fits, c.content_back p b fits)
