-- ===== src/Libc.antt =====
-- lib/libc: the string functions of the C library.
pub mod Compare
pub mod Heap
pub mod Ctype
pub mod Memory
pub mod Rand
pub mod Search
pub mod Number
mod Examples
