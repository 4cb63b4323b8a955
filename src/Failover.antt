-- ===== src/Failover.antt =====
-- A node in a session whose host may crash (src/distributed_smb/application/election/mixin.py and
-- the election, eviction and event parts of application/gameplay/{client,events,host}.py).
pub mod Node
pub mod Promotion
pub mod Claims
pub mod Watch
pub mod Promoted
pub mod Acks
pub mod Deadline
pub mod Coordinator
pub mod Watched
pub mod Sound
