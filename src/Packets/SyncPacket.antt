-- ===== src/Packets/SyncPacket.antt =====
-- Packets/Sync_Packet.h and Sync_Packet.cxx: the layer of state updates.
use inferno_game_server.Base.{ℕ, ◌+◌, ◌-◌}
use inferno_game_server.Packets.Memory.{Buffer, store, load}
use inferno_game_server.Packets.Packet
use inferno_game_server.Packets.Packet.{PacketHeader}

pub record SyncHeader : Type 0 where
  pub priority : ℕ
  pub sync : ℕ

-- Strips the layer's header: the moved tail and the header.
unfoldable pub deserialize : ℕ → Buffer → ℕ × SyncHeader
deserialize tail b =
    (tail - 2, record { priority = load (tail - 2) 1 b; sync = load (tail - 1) 1 b })

-- The layer's header is written at `tail`, and then `Packet::add_header` at the same `tail`.
unfoldable pub add_header : PacketHeader → SyncHeader → ℕ → Buffer → Buffer
unfolding Packet.add_header
add_header header s_header tail b =
    let b1 = store tail 1 s_header.priority b in
    let b2 = store (tail + 1) 1 s_header.sync b1 in Packet.add_header header tail b2
