-- ===== src/Seekmark.antt =====
-- incoming/seekmark.c: threads that read or write blocks at random places of a file.
pub mod Options
pub mod Thread
pub mod Main
pub mod Whole
mod Tests
