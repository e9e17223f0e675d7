-- ===== src/Lib.antt =====
-- A model of the core of NeptunOS, a kernel for x86-64: its memory management, scheduler, containers and
-- strings, its paths and FAT volumes, the loaders of modules and programs, the console, and parts of its
-- input, device, interrupt and archive code.
--
-- Parts. The physical memory manager hands out pages of 4 KiB that it tracks in a bitmap. Before there
-- is a heap, and for page tables, the watermark allocator hands out memory from one area. The heap is a
-- chain of links in a pool whose places a second bitmap tracks; with VMM_DEBUG, as built, each block
-- lies between two redzones that are tested when it is freed. The page tables are built from pages of
-- the watermark allocator. The scheduler keeps its tasks in a circular linked list and gives the
-- processor to the next one at each call of sched_tick, which the timer makes at one interrupt in
-- SCHED_QUANTUM; the linked list is also what the buckets of a hash map are, and those lie in a vector.
-- Strings and views are used by the command line, the file systems and the drivers. A path is led to the
-- file system that is mounted at it; the FAT module follows it through the folders of a volume, and the
-- clusters of the file through the table, and reads the disk through msd_read. The loader of modules
-- puts the sections of an object file into memory and links them to the symbols of the kernel.
--
-- Files.
--   Base, Bits         shared names, lists, faults; bits of machine words.
--   Arith              kernel/src/util/bits/arithmetic.hh: align, VIRTUAL, PHYSICAL, shifts.
--   Bitmap             kernel/src/util/bitmap.hh. `set_bit`, `get_bit`, `init` are set, get, init;
--                      `scan` and `mark` are the two loops of allocate_range.
--   Watermark          kernel/src/mm/vmm.cc: wm_alloc, and sequences of its calls.
--   Pmm                kernel/src/mm/pmm.cc: pmm_alloc, pmm_alloc4g, and in Init pmm_init over a
--                      memory map that is an argument.
--   Heap               kernel/src/util/mm.{hh,cc}: MemoryMgr. Links has the walk and the operations on
--                      links, Ops and Aligned the methods, Memory the byte loops of util/mem.cc.
--                      Layout says when a heap is well formed; AllocLaws, FreeLaws and RoundTrip hold
--                      the theorems.
--   Text               kernel/src/util/string.{hh,cc}, and StringView and StringSplitIterator of
--                      kernel/src/util/storage.hh.
--   Vector             Vector of kernel/src/util/storage.hh. The answer of the heap to a request to grow a
--                      block in place is an argument.
--                      Whole has its constructors, copies, moves and comparison.
--   Strings            String of kernel/src/util/storage.hh.
--   LinkedList         LinkedList of kernel/src/util/storage.hh. Ring says when a chain is a ring that holds
--                      a list of elements.
--   HashMap            HashMap of kernel/src/util/storage.hh; the hash of a key and the comparison of keys
--                      are arguments.
--   Async              kernel/src/util/async.hh: MutexSimple and atomic. System interleaves processors.
--   Scheduler          kernel/src/scheduler/scheduler.{hh,cc}. Turns is about ticks, Ends about the end of
--                      tasks, Adds about new ones.
--   Paging             kernel/src/arch/amd64/paging.{hh,cc}: mapping and looking up.
--   Interrupts         kernel/src/arch/amd64/idt.cc: the entries and the allocation of vectors.
--   Input              kernel/src/devmgr/input/input.cc: the line buffer of the keyboard.
--   Ustar              kernel/src/util/ustar.{hh,cc}: the walk over a tar archive.
--   Disk               kernel/src/devmgr/msd/msd.cc: msd_read, over the bytes of a disk.
--   Fat                kernel/modules/fat/src/fat.{hh,cc}. Chain and Files are about the clusters of a file,
--                      Directory, Names, Lookup and Hidden about names and paths.
--   Paths              kernel/src/fs/fs.cc: path_sanitize, path_join, path_basename, fs_find_mnt.
--   Modules            kernel/src/devmgr/module.cc: Pages is about the pages of a section, Load about the
--                      sections of a module, Link about its relocations.
--   Loader             kernel/src/loader/loader.cc: the segments of a program.
--   Devices            kernel/src/devmgr/devmgr.cc: the modules that a new device starts (Launches), and the
--                      one that mounts a volume (Mounting).
--   Console            kernel/src/gfx/console.cc: the cursor and the places that are drawn at.
--   Tests              uses of the theorems on concrete inputs.
--
-- Conventions. Numbers are natural numbers; u8, u32 and u64 arithmetic wraps where the code can wrap it.
-- `fatal(...)`, a failed assert, a fault of the processor, an access through a null pointer and, in a
-- vector or a string, one outside of its block are the outcome `fatal`, after which there is no state.
-- The doubly linked chain of the heap is the list of its links from `first` on. Memory is a function
-- from addresses to bytes; a C string is the list of the bytes from its address on. Most loops run over
-- a list or a count that the code bounds. The others get the rounds they may take: the decimal printer
-- of Text.Number.Decimal one more than the number, the loops of HashMap at least the links of the
-- bucket, the loop `visit` of LinkedList and those of Ustar an argument. Where the rounds are used up
-- the outcome is an argument `unfinished` in ustar_lookup and chainread, which tells such a run from a
-- fault, and `fatal` in the others. A visit of a ring of n links takes n + 1 rounds, and an archive one
-- more than it has headers of 512 bytes. A mutex makes a call atomic, so a call is one step; only in
-- Async.System do single operations on the mutex interleave. Where a container allocates, the address it
-- gets is an argument. The loop of chainread over a chain takes one round more than it has clusters, the
-- one of fat32_lookup an argument. In Fat.Directory and Modules a string is the list of its bytes, and
-- so is the path of a mount point; the strings of path_sanitize and path_join are those of Strings. The
-- page tables of Modules are the set of their pages with the set of their tables, and the memory that is
-- left for pages and for tables is counted. A signed overflow in str_to_int is `fatal`.
--
-- Not modelled: what only prints, device and processor registers, assembly, the vendored printf and boot
-- protocol, the drivers for disks and USB, the memory file system, and the smart pointers.
pub mod Base
pub mod Bits
pub mod Arith
pub mod Bitmap
pub mod Watermark
pub mod Pmm
pub mod Heap
pub mod Vector
pub mod Strings
pub mod HashMap
pub mod Paging
pub mod Ustar
pub mod Input
pub mod Console
pub mod Disk
pub mod Fat
pub mod Interrupts
pub mod Modules
pub mod Loader
pub mod Devices
pub mod Paths
pub mod LinkedList
pub mod Async
pub mod Scheduler
pub mod Text
pub mod Tests
