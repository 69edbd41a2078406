-- ===== src/Packets/Layers.antt =====
-- What becomes of the layers' own headers (Packets/Event_Packet.cxx, Sync_Packet.cxx and
-- Protocol_Packet.cxx): each `add_header` writes its header and then the common one over it.
use inferno_game_server.Base.{ℕ, ◌≡◌, fun_ext, arith}
use inferno_game_server.Packets.Memory.{Buffer}
use inferno_game_server.Packets.Packet.{PacketHeader}
use inferno_game_server.Packets.EventPacket
use inferno_game_server.Packets.SyncPacket
use inferno_game_server.Packets.ProtocolPacket
use inferno_game_server.Packets.EventPacket.{EventHeader}
use inferno_game_server.Packets.SyncPacket.{SyncHeader}
use inferno_game_server.Packets.ProtocolPacket.{ProtocolHeader}

event_header_lost :
    (h : PacketHeader) (e e' : EventHeader) (tail : ℕ) (b : Buffer) (a : ℕ)
    → EventPacket.add_header h e tail b a ≡ EventPacket.add_header h e' tail b a
unfolding EventPacket.add_header
event_header_lost h e e' tail b a = ground arith

sync_header_lost :
    (h : PacketHeader) (s s' : SyncHeader) (tail : ℕ) (b : Buffer) (a : ℕ)
    → SyncPacket.add_header h s tail b a ≡ SyncPacket.add_header h s' tail b a
unfolding SyncPacket.add_header
sync_header_lost h s s' tail b a = ground arith

protocol_header_lost :
    (h : PacketHeader) (p p' : ProtocolHeader) (tail : ℕ) (b : Buffer) (a : ℕ)
    → ProtocolPacket.add_header h p tail b a ≡ ProtocolPacket.add_header h p' tail b a
unfolding ProtocolPacket.add_header
protocol_header_lost h p p' tail b a = ground arith

-- The bytes that a layer's `add_header` leaves do not depend on the layer's header: for events, updates
-- and protocol packets alike, two packets that differ in it alone are the same on the wire.
pub layer_headers_lost :
    (h : PacketHeader) (tail : ℕ) (b : Buffer)
    → ((e e' : EventHeader)
        → EventPacket.add_header h e tail b ≡ EventPacket.add_header h e' tail b)
      × ((s s' : SyncHeader) → SyncPacket.add_header h s tail b ≡ SyncPacket.add_header h s' tail b)
      × ((p p' : ProtocolHeader)
          → ProtocolPacket.add_header h p tail b ≡ ProtocolPacket.add_header h p' tail b)
layer_headers_lost h tail b = (
  λ e e'. fun_ext (event_header_lost h e e' tail b),
  λ s s'. fun_ext (sync_header_lost h s s' tail b),
  λ p p'. fun_ext (protocol_header_lost h p p' tail b),
)
