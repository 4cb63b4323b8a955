-- ===== src/Wire.antt =====
-- What travels between the nodes and the lobby: src/distributed_smb/network/serializer.py with the
-- schemas and messages of shared/messages.
pub mod Json
pub mod MessageType
pub mod Messages
pub mod World
pub mod Schemas
pub mod Encode
pub mod Decode
pub mod RoundTrip
