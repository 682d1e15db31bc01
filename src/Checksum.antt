-- ===== src/Checksum.antt =====
-- incoming/write-after-checksum.c: processes that write short texts at random places of a file, by
-- pwrite or through a mapping.
pub mod Places
pub mod Loops
pub mod Bounds
pub mod Inside
pub mod Main
pub mod Whole
mod Tests
