-- ===== src/Storage.antt =====
-- The package under internal/storage.
pub mod Record
pub mod Wal
pub mod Codec
pub mod Frame
pub mod Replay
pub mod Disk
pub mod Handle
pub mod Directory
pub mod Repair
