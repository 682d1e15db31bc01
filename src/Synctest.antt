-- ===== src/Synctest.antt =====
-- incoming/synctest.c: child processes that create, sync, rename and unlink files, and the parent
-- that starts them in their directories and waits for them.
pub mod Child
pub mod History
pub mod Ends
pub mod Lag
pub mod Beside
pub mod Together
pub mod Parent
pub mod Directories
pub mod Waiting
pub mod Returning
pub mod Main
pub mod Names
pub mod Whole
pub mod Children
mod Tests
