-- ===== src/Packets/Packet.antt =====
-- Packets/Packet.h and Packet.cxx: the header that every packet carries behind its content.
use inferno_game_server.Base.{ℕ, ◌+◌, ◌-◌, ◌*◌, ◌<◌, ◌≡◌}
use inferno_game_server.Packets.Memory.{Buffer, byte, store, load, bytes_2, bytes_4}

-- struct packet_header: uint32_t, uint16_t, uint16_t, uint32_t, uint8_t
pub record PacketHeader : Type 0 where
  pub game_id : ℕ
  pub server_id : ℕ
  pub sequence_num : ℕ
  pub ack_bitfield : ℕ
  pub type : ℕ

-- The values that the fields' types can hold.
pub record IsSized (h : PacketHeader) : Type 0 where
  pub game_id : h.game_id < 4294967296
  pub server_id : h.server_id < 65536
  pub sequence_num : h.sequence_num < 65536
  pub ack_bitfield : h.ack_bitfield < 4294967296

-- Strips the header from the end of a packet: the moved tail, and the header with the fields that
-- are sent. `type` is not, and keeps the value that the caller's struct had.
unfoldable pub deserialize : ℕ → Buffer → PacketHeader → ℕ × PacketHeader
deserialize tail b p_header = (
  tail - 12,
  record p_header {
    game_id = load (tail - 12) 4 b;
    server_id = load (tail - 8) 2 b;
    sequence_num = load (tail - 6) 2 b;
    ack_bitfield = load (tail - 4) 4 b;
  },
)

unfoldable pub add_header : PacketHeader → ℕ → Buffer → Buffer
add_header header tail b =
    let b1 = store tail 4 header.game_id b in
    let b2 = store (tail + 4) 2 header.server_id b1 in
    let b3 = store (tail + 6) 2 header.sequence_num b2 in store (tail + 8) 4 header.ack_bitfield b3

unfoldable pub get_header_size : ℕ
get_header_size = 13

abbrev pub joined_2 : ℕ → ℕ
joined_2 v = byte 0 v + 256 * (byte 1 v + 0)

abbrev pub joined_4 : ℕ → ℕ
joined_4 v = byte 0 v + 256 * (byte 1 v + 256 * (byte 2 v + 256 * (byte 3 v + 0)))

-- What the loads compute to behind an `add_header` at the same place.
abbrev pub joined : PacketHeader → PacketHeader → PacketHeader
joined header p_header = record p_header {
  game_id = joined_4 header.game_id;
  server_id = joined_2 header.server_id;
  sequence_num = joined_2 header.sequence_num;
  ack_bitfield = joined_4 header.ack_bitfield;
}

-- Bytes that were split from a header's fields join to that header.
pub split-joined :
    (tail : ℕ) (header p_header : PacketHeader)
    → IsSized header
    → ◌≡◌ {A = ℕ × PacketHeader}
        (tail, joined header p_header)
        (tail, record header { type = p_header.type })
split-joined tail header p_header h = λ i. (
  tail,
  record p_header {
    game_id = bytes_4 header.game_id h.game_id i;
    server_id = bytes_2 header.server_id h.server_id i;
    sequence_num = bytes_2 header.sequence_num h.sequence_num i;
    ack_bitfield = bytes_4 header.ack_bitfield h.ack_bitfield i;
  },
)
