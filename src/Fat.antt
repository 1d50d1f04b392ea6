-- ===== src/Fat.antt =====
-- vcore/src/vfs/fat32.rs: the on-disk structures of FAT32.
pub mod Bpb
pub mod Entry
pub mod Long
pub mod Table
pub mod Volume
pub mod Chain
pub mod Cluster
pub mod Name
pub mod Dir
pub mod Fs
pub mod Handle
pub mod Calls
