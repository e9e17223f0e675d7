-- ===== src/Heap.antt =====
-- The kernel heap, MemoryMgr of kernel/src/util/mm.{hh,cc}, as it is built with VMM_DEBUG.
-- The doubly linked list is the list of its links in the order of the `next` pointers, from `first`
-- on: the neighbours of a link in it are what `next` and `prev` point to. Each link knows its place
-- `index` in the array `links`, and `bm` says which places are taken. A walk stops at a `Cursor`.
-- The public methods hold the mutex from end to end, so a call is one step.
pub mod Links
pub mod Memory
pub mod Ops
pub mod Aligned
pub mod Sums
pub mod Layout
pub mod AllocLaws
pub mod FreeLaws
pub mod RoundTrip
use neptun_os.Base.{ℕ, Bool, List}
use neptun_os.Bitmap.{Bitmap}

-- `link_t`; a file name is the address of the text, 0 for none.
pub record Link : Type 0 where
  pub index : ℕ
  pub file : ℕ
  pub line : ℕ
  pub length : ℕ
  pub free : Bool

pub record Heap : Type 0 where
  pub links : List Link
  pub bm : Bitmap
  pub usedmem : ℕ
  pub freemem : ℕ
  pub heap_base : ℕ
  pub memory : ℕ → ℕ
