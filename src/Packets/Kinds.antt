-- ===== src/Packets/Kinds.antt =====
-- The packet classes whose content comes back whole, as instances of the interface `Codec`. The minion
-- update is not among them: see Packets/IMinion.
use inferno_game_server.Base.{ℕ, ◌+◌, ◌≤◌, ◌≡◌, arith}
use inferno_game_server.Packets.Memory.{Buffer}
use inferno_game_server.Packets.Packet.{PacketHeader}
use inferno_game_server.Packets.Codec.{Codec, receive, receive-serialize}
use inferno_game_server.Packets.CPing
use inferno_game_server.Packets.CSyn
use inferno_game_server.Packets.GPing
use inferno_game_server.Packets.GAutoNotify
use inferno_game_server.Packets.GAutoRequest
use inferno_game_server.Packets.GMoveNotify
use inferno_game_server.Packets.GMoveRequest
use inferno_game_server.Packets.GPrimaryNotify
use inferno_game_server.Packets.GPrimaryRequest
use inferno_game_server.Packets.IAuto
use inferno_game_server.Packets.ILastHit
use inferno_game_server.Packets.ILocalPlayer
use inferno_game_server.Packets.IObjective
use inferno_game_server.Packets.IPrimary
use inferno_game_server.Packets.GPrimaryNotify.{PrimaryNotify}

-- `g_primary_notify` carries the struct that the receiver passes in: `experience` is not sent.
pub data PacketKind : Type 0 where
  c_ping : PacketKind
  c_syn : PacketKind
  g_ping : PacketKind
  g_auto_notify : PacketKind
  g_auto_request : PacketKind
  g_move_notify : PacketKind
  g_move_request : PacketKind
  g_primary_notify : PrimaryNotify → PacketKind
  g_primary_request : PacketKind
  i_auto : PacketKind
  i_last_hit : PacketKind
  i_local_player : PacketKind
  i_objective : PacketKind
  i_primary : PacketKind

abbrev pub codec : PacketKind → Codec
codec c_ping = CPing.codec
codec c_syn = CSyn.codec
codec g_ping = GPing.codec
codec g_auto_notify = GAutoNotify.codec
codec g_auto_request = GAutoRequest.codec
codec g_move_notify = GMoveNotify.codec
codec g_move_request = GMoveRequest.codec
codec (g_primary_notify old) = GPrimaryNotify.codec old
codec g_primary_request = GPrimaryRequest.codec
codec i_auto = IAuto.codec
codec i_last_hit = ILastHit.codec
codec i_local_player = ILocalPlayer.codec
codec i_objective = IObjective.codec
codec i_primary = IPrimary.codec

-- For each of the fourteen packet classes and every object whose fields are in the range of their
-- types: of the serialised bytes, `Packet::deserialize` at the end recovers the header but for `type`,
-- which keeps the receiver's value, and the class's `deserialize` at the tail that this leaves recovers
-- the content (of an attack notification all but `experience`, which keeps the receiver's value).
pub round_trip :
    (k : PacketKind) (p : (codec k).Obj) (b : Buffer) (h : PacketHeader)
    → (codec k).Fits p
    → receive (codec k) ((codec k).size + 12) ((codec k).serialize p b) h
      ≡ (record ((codec k).header p) { type = h.type }, (codec k).content p)
round_trip k p b h fits = receive-serialize (codec k) p b h fits

-- Each of the fourteen classes writes within its `get_packet_size`, and less: from the last byte of
-- that size on, the buffer is as it was.
pub within_packet_size :
    (k : PacketKind) (p : (codec k).Obj) (b : Buffer) (a : ℕ)
    → (codec k).packet_size ≤ a + 1
    → (codec k).serialize p b a ≡ b a
within_packet_size k p b a h = (codec k).untouched p b a (omega (arith, (codec k).room))
