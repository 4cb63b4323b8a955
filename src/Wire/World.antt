-- ===== src/Wire/World.antt =====
-- The world state in messages: its data and dictionary, the constructors of its parts, and how it is
-- rebuilt.
pub mod Data
pub mod Letters
pub mod Entities
pub mod Rebuild
