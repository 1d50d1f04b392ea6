-- ===== src/Vfs.antt =====
-- vcore/src/vfs: the virtual file system and the file systems that it mounts.
pub mod Types
pub mod Fd
pub mod FilePath
pub mod Mounts
pub mod TmpFs
pub mod Cursor
