-- ===== src/Fs.antt =====
-- kern/fs: the blocks of the disk and the inodes.
pub mod Blocks
pub mod Inodes
pub mod Layout
pub mod Volume
pub mod Restart
pub mod Dir
pub mod Files
mod Tests
