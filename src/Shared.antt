-- ===== src/Shared.antt =====
-- The shared kernel of the nodes (src/distributed_smb/shared): player ids and the roster.
pub mod PlayerId
pub mod Roster
pub mod Messages
