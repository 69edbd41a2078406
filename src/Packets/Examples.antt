-- ===== src/Packets/Examples.antt =====
-- The theorems about packets at concrete packets.
use inferno_game_server.Base.{◌≡◌, arith}
use inferno_game_server.Packets.Memory.{Buffer}
use inferno_game_server.Packets.Packet.{PacketHeader}
use inferno_game_server.Packets.GPing
use inferno_game_server.Packets.IMinion
use inferno_game_server.Packets.Codec.{receive}
use inferno_game_server.Packets.Kinds.{g_ping, codec, round_trip}
use inferno_game_server.Packets.IMinion.{minion_misread}
use inferno_game_server.Packets.Packet.{IsSized}
use inferno_game_server.Packets.Enumerations.{
  packet_code, event_code, sync_code, protocol_code, PacketType, EventType, SyncType, ProtocolOp,
}
use inferno_game_server.Packets.EventPacket
use inferno_game_server.Packets.SyncPacket
use inferno_game_server.Packets.ProtocolPacket
use inferno_game_server.Packets.Packet
use inferno_game_server.Packets.Dispatch.{kinds_undecided}

abbrev zeroes : Buffer
zeroes a = 0

abbrev some_header : PacketHeader
some_header = record {
  game_id = 59343074;
  server_id = 7;
  sequence_num = 515;
  ack_bitfield = 4026531840;
  type = 1;
}

abbrev ping : GPing.GPingPacket
ping = record {
  header = some_header;
  e_header = record { priority = 1; event = 0 };
  ping_data = record { ping = 2; x = 70000; y = 4294967295 };
}

round_trip_example :
    receive (codec g_ping) 21 (GPing.serialize ping zeroes) some_header
    ≡ (some_header, record { ping = 2; x = 70000; y = 4294967295 })
round_trip_example = round_trip g_ping ping zeroes some_header (omega arith)

abbrev minion : IMinion.IMinionPacket
minion = record {
  header = some_header;
  s_header = record { priority = 1; sync = 1 };
  minion_data = record {
    id = 5;
    health = 80;
    max_health = 100;
    x = 131073;
    y = 2;
    z = 3;
    rot_x = 4;
    rot_y = 5;
    rot_z = 6;
    auto_target = 9;
  };
}

kinds_undecided_example :
    (¬ (
      (judge : Buffer → PacketType) × ((t : PacketType)
        → judge (Packet.add_header (record some_header { type = packet_code t }) 9 zeroes) ≡ t)))
    × (¬ (
        (judge : Buffer → EventType) × ((t : EventType)
          → judge (
              EventPacket.add_header some_header
                (record { priority = 1; event = event_code t })
                9
                zeroes)
            ≡ t)))
    × (¬ (
        (judge : Buffer → SyncType) × ((t : SyncType)
          → judge (
              SyncPacket.add_header some_header
                (record { priority = 1; sync = sync_code t })
                9
                zeroes)
            ≡ t)))
    × (¬ (
        (judge : Buffer → ProtocolOp) × ((t : ProtocolOp)
          → judge (ProtocolPacket.add_header some_header (record { op = protocol_code t }) 9 zeroes)
            ≡ t)))
kinds_undecided_example = kinds_undecided some_header 1 9 zeroes
