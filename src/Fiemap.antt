-- ===== src/Fiemap.antt =====
-- incoming/fiemap-test.c
pub mod Extent
pub mod Flags
pub mod Data
pub mod Hole
pub mod Compare
pub mod Create
pub mod Main
mod Tests
