-- ===== src/Block.antt =====
-- vcore/src/vfs/block: block devices, their partitions, and the device files.
pub mod Device
pub mod Table
pub mod DevFs
