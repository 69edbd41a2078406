-- ===== src/Packets.antt =====
-- Packets/: the classes of packets and of the layers below them.
pub mod Memory
pub mod Packet
pub mod EventPacket
pub mod SyncPacket
pub mod ProtocolPacket
pub mod CPing
pub mod CSyn
pub mod GPing
pub mod GAutoNotify
pub mod GAutoRequest
pub mod GMoveNotify
pub mod GMoveRequest
pub mod GPrimaryNotify
pub mod GPrimaryRequest
pub mod IAuto
pub mod ILastHit
pub mod ILocalPlayer
pub mod IMinion
pub mod IObjective
pub mod IPrimary
pub mod Codec
pub mod Kinds
pub mod Layers
pub mod Enumerations
pub mod Dispatch
mod Examples
