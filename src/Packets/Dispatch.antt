-- ===== src/Packets/Dispatch.antt =====
-- The enumerators that say what kind of packet it is (Packets/): they do not reach a receiver.
use inferno_game_server.Base.{ℕ, ◌≡◌, ◌≢◌, refl, ap, sym, ◌∙◌}
use inferno_game_server.Packets.Memory.{Buffer}
use inferno_game_server.Packets.Packet
use inferno_game_server.Packets.Packet.{PacketHeader}
use inferno_game_server.Packets.EventPacket
use inferno_game_server.Packets.SyncPacket
use inferno_game_server.Packets.ProtocolPacket
use inferno_game_server.Packets.Layers.{layer_headers_lost}
use inferno_game_server.Packets.Enumerations.{
  PacketType, state_change_packet, state_sync_packet, EventType, auto_request, auto_notify,
  SyncType, lasthit_update, objective_update, ProtocolOp, ping, syn, packet_code, event_code,
  sync_code, protocol_code,
}

-- Two packets of different types that are the same on the wire.
undecided :
    {T : Type 0} (send : T → Buffer) (t u : T)
    → send t ≡ send u
    → t ≢ u
    → ¬ ((judge : Buffer → T) × ((v : T) → judge (send v) ≡ v))
undecided send t u e ne (judge, right) = ne (sym (right t) ∙ (ap judge e ∙ right u))

event_differs : auto_request ≢ auto_notify
event_differs e = cc

sync_differs : lasthit_update ≢ objective_update
sync_differs e = cc

protocol_differs : ping ≢ syn
protocol_differs e = cc

packet_differs : state_change_packet ≢ state_sync_packet
packet_differs e = cc

packet_type_lost :
    (h : PacketHeader) (tail : ℕ) (b : Buffer) (t u : ℕ)
    → Packet.add_header (record h { type = t }) tail b
      ≡ Packet.add_header (record h { type = u }) tail b
unfolding Packet.add_header
packet_type_lost h tail b t u = refl

-- A receiver cannot tell what kind of packet it has: no function of the buffer that `add_header`
-- leaves gives back the type of the packet that was written there, nor, for the three layers, the
-- event, the update or the operation, whatever else is in the buffer and the headers.
pub kinds_undecided :
    (h : PacketHeader) (priority tail : ℕ) (b : Buffer)
    → (¬ (
        (judge : Buffer → PacketType) × ((t : PacketType)
          → judge (Packet.add_header (record h { type = packet_code t }) tail b) ≡ t)))
      × (¬ (
          (judge : Buffer → EventType) × ((t : EventType)
            → judge (
                EventPacket.add_header h
                  (record { priority = priority; event = event_code t })
                  tail
                  b)
              ≡ t)))
      × (¬ (
          (judge : Buffer → SyncType) × ((t : SyncType)
            → judge (
                SyncPacket.add_header h (record { priority = priority; sync = sync_code t }) tail b)
              ≡ t)))
      × (¬ (
          (judge : Buffer → ProtocolOp) × ((t : ProtocolOp)
            → judge (ProtocolPacket.add_header h (record { op = protocol_code t }) tail b) ≡ t)))
kinds_undecided h priority tail b =
    let (events, syncs, ops) = layer_headers_lost h tail b in
    (
      undecided (λ t. Packet.add_header (record h { type = packet_code t }) tail b)
          state_change_packet state_sync_packet (packet_type_lost h tail b 0 1) packet_differs,
      undecided
          (λ t.
            EventPacket.add_header h (record { priority = priority; event = event_code t }) tail b)
          auto_request auto_notify (events _ _) event_differs,
      undecided
          (λ t. SyncPacket.add_header h (record { priority = priority; sync = sync_code t }) tail b)
          lasthit_update objective_update (syncs _ _) sync_differs,
      undecided (λ t. ProtocolPacket.add_header h (record { op = protocol_code t }) tail b) ping syn
          (ops _ _) protocol_differs,
    )
