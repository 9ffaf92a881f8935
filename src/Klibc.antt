-- ===== src/Klibc.antt =====
-- src/klibc: the kernel's C library.
pub mod Mem
pub mod Str
pub mod Slab
pub mod Heap
pub mod Printf
pub mod Hashtable
