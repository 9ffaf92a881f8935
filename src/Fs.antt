-- ===== src/Fs.antt =====
-- src/fs: the file systems of the kernel.
pub mod Vnode
pub mod Path
pub mod Mount
