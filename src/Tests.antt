-- ===== src/Tests.antt =====
-- Runs of the model on small inputs, and the theorems applied to them.
pub mod Shared
pub mod Lobby
pub mod Election
pub mod Integers
pub mod Prediction
pub mod Engine
pub mod Failover
pub mod Following
pub mod Hosting
pub mod Wire
pub mod Agents
pub mod Recovery
pub mod Handshake
pub mod Shadows
pub mod Relay
