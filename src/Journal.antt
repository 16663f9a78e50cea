-- ===== src/Journal.antt =====
-- The journal under core/journal: frames in memory-mapped pages, one writer, any number of readers.
pub mod Memory
pub mod Frame
pub mod Page
pub mod Cursor
pub mod Writer
pub mod Chain
pub mod Reader
