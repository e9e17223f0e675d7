-- ===== src/Heap/FreeLaws.antt =====
-- `free_nomutex`: it gives back the bytes of a block whose redzones are whole, and stops the kernel on
-- any other pointer.
pub mod Fuse
pub mod Release
pub mod Guards
