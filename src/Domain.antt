-- ===== src/Domain.antt =====
-- The simulation (src/distributed_smb/domain): the world's entities and the game engine.
pub mod Scalar
pub mod World
pub mod Collisions
pub mod Players
pub mod Objects
pub mod Enemies
pub mod Engine
pub mod Gates
pub mod Kept
pub mod Survival
pub mod Frames
pub mod Rules
pub mod Bounds
pub mod Reset
