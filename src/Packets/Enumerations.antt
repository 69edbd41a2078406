-- ===== src/Packets/Enumerations.antt =====
-- The enumerations of Packets/ with a uint8_t base: an enumerator is its place in the list, from 0.
use inferno_game_server.Base.{ℕ, ◌≡◌, refl, List, [], ◌∷◌, Option, some, get_elem?}

-- enum packet_type (Packet.h)
pub data PacketType : Type 0 where
  state_change_packet state_sync_packet : PacketType

-- enum event_type (Event_Packet.h)
pub data EventType : Type 0 where
  auto_request auto_notify : EventType

-- enum sync_type (Sync_Packet.h)
pub data SyncType : Type 0 where
  lasthit_update objective_update local_player_update remote_player_update : SyncType

-- enum protocol_op (Protocol_Packet.h)
pub data ProtocolOp : Type 0 where
  ping syn : ProtocolOp

-- enum syn_type (C_SYN_Packet.h)
pub data SynType : Type 0 where
  connect disconnect : SynType

-- enum ping_type (G_Ping_Packet.h)
pub data PingType : Type 0 where
  ping_warning ping_assist ping_target ping_moveto : PingType

-- enum attack_type (G_Primary_Defs.h)
pub data AttackType : Type 0 where
  primary_attack secondary_attack proficiency ultimate : AttackType

-- enum kill_type (I_LastHit_Packet.h)
pub data KillType : Type 0 where
  minion_kill player_kill tower_kill shield_generator_kill core_kill : KillType

-- The values that C++ gives to enumerators.
abbrev pub packet_code : PacketType → ℕ
packet_code state_change_packet = 0
packet_code state_sync_packet = 1

abbrev pub event_code : EventType → ℕ
event_code auto_request = 0
event_code auto_notify = 1

abbrev pub sync_code : SyncType → ℕ
sync_code lasthit_update = 0
sync_code objective_update = 1
sync_code local_player_update = 2
sync_code remote_player_update = 3

abbrev pub protocol_code : ProtocolOp → ℕ
protocol_code ping = 0
protocol_code syn = 1

-- An enumeration: its enumerators in order, and the value of each.
pub record Enumeration : Type 1 where
  pub Enumerator : Type 0
  pub enumerators : List Enumerator
  pub value : Enumerator → ℕ
  pub at_value : (e : Enumerator) → get_elem? enumerators (value e) ≡ some e

-- The enumerator that a value stands for.
unfoldable pub named : (e : Enumeration) → ℕ → Option e.Enumerator
named e n = get_elem? e.enumerators n

pub named-value : (e : Enumeration) (t : e.Enumerator) → named e (e.value t) ≡ some t
unfolding named
named-value e t = e.at_value t

abbrev pub syn_code : SynType → ℕ
syn_code connect = 0
syn_code disconnect = 1

abbrev pub ping_code : PingType → ℕ
ping_code ping_warning = 0
ping_code ping_assist = 1
ping_code ping_target = 2
ping_code ping_moveto = 3

abbrev pub attack_code : AttackType → ℕ
attack_code primary_attack = 0
attack_code secondary_attack = 1
attack_code proficiency = 2
attack_code ultimate = 3

abbrev pub kill_code : KillType → ℕ
kill_code minion_kill = 0
kill_code player_kill = 1
kill_code tower_kill = 2
kill_code shield_generator_kill = 3
kill_code core_kill = 4

pub syn_type-at_value : (e : SynType) → get_elem? (connect ∷ disconnect ∷ []) (syn_code e) ≡ some e
syn_type-at_value connect = refl
syn_type-at_value disconnect = refl

abbrev pub syn_type : Enumeration
syn_type = record {
  Enumerator = SynType;
  enumerators = connect ∷ disconnect ∷ [];
  value = syn_code;
  at_value = syn_type-at_value;
}

pub ping_type-at_value :
    (e : PingType)
    → get_elem? (ping_warning ∷ ping_assist ∷ ping_target ∷ ping_moveto ∷ []) (ping_code e) ≡ some e
ping_type-at_value ping_warning = refl
ping_type-at_value ping_assist = refl
ping_type-at_value ping_target = refl
ping_type-at_value ping_moveto = refl

abbrev pub ping_type : Enumeration
ping_type = record {
  Enumerator = PingType;
  enumerators = ping_warning ∷ ping_assist ∷ ping_target ∷ ping_moveto ∷ [];
  value = ping_code;
  at_value = ping_type-at_value;
}

pub attack_type-at_value :
    (e : AttackType)
    → get_elem? (primary_attack ∷ secondary_attack ∷ proficiency ∷ ultimate ∷ []) (attack_code e)
      ≡ some e
attack_type-at_value primary_attack = refl
attack_type-at_value secondary_attack = refl
attack_type-at_value proficiency = refl
attack_type-at_value ultimate = refl

abbrev pub attack_type : Enumeration
attack_type = record {
  Enumerator = AttackType;
  enumerators = primary_attack ∷ secondary_attack ∷ proficiency ∷ ultimate ∷ [];
  value = attack_code;
  at_value = attack_type-at_value;
}

abbrev pub kill_types : List KillType
kill_types = minion_kill ∷ player_kill ∷ tower_kill ∷ shield_generator_kill ∷ core_kill ∷ []

pub kill_type-at_value : (e : KillType) → get_elem? kill_types (kill_code e) ≡ some e
kill_type-at_value minion_kill = refl
kill_type-at_value player_kill = refl
kill_type-at_value tower_kill = refl
kill_type-at_value shield_generator_kill = refl
kill_type-at_value core_kill = refl

abbrev pub kill_type : Enumeration
kill_type = record {
  Enumerator = KillType;
  enumerators = kill_types;
  value = kill_code;
  at_value = kill_type-at_value;
}
