-- ===== src/Wire/RoundTrip.antt =====
-- What is sent is what is received: the decoders of src/distributed_smb/network/serializer.py after
-- the encoders.
pub mod Reading
pub mod Lobby
pub mod Rosters
pub mod Worlds
pub mod Play
pub mod Tags
pub mod Ws
pub mod Udp
