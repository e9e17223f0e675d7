-- ===== src/Heap/AllocLaws.antt =====
-- `alloc_nomutex`: it serves every request that a free link can hold.
mod Split
pub mod Serve
