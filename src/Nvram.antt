-- ===== src/Nvram.antt =====
-- lib/libnvram: the partitions of the non-volatile memory and the variables kept in one of them.
pub mod Store
pub mod Partition
pub mod Change
pub mod Env
mod Examples
