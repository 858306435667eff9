-- ===== src/NewFs.antt =====
-- mkfs.chunkfs.c and super.c together: the mount of a new file system.
pub mod Device
pub mod Chain
pub mod Mounts
pub mod Roots
pub mod Ghost
