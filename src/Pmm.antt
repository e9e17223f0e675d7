-- ===== src/Pmm.antt =====
-- The physical memory manager, kernel/src/mm/pmm.cc: a bitmap with a bit for each page of 4 KiB, set
-- where the page is in use, and two counters. The mutex is the flag `locked`; taking it while it is
-- held spins for ever.
pub mod Laws
pub mod Init
pub mod Marked
pub mod Boot
use neptun_os.Base.{
  ℕ, ◌+◌, ◌-◌, ◌*◌, ◌/◌, ◌%◌, Bool, true, false, Option, none, some, Outcome, ok, fatal, ◌>>=◌,
  if◌then◌else◌,
}
use neptun_os.Bits.{u64_mod}
use neptun_os.Arith.{align, virtual_address, gibs2bytes}
use neptun_os.Bitmap.{Bitmap, find_and_set_multiple}

-- `PMM_PAGESIZE`
abbrev pub page_size : ℕ
page_size = 0x1000

-- `pmm_usedmem`, `pmm_freemem`, `*pmm_bm`, `pmm_mutex`
pub record Pmm : Type 0 where
  pub usedmem : ℕ
  pub freemem : ℕ
  pub bm : Bitmap
  pub locked : Bool

-- `find_and_set_multiple(size / PMM_PAGESIZE, start_at)` under the lock, and what surrounds it in both
-- `pmm_alloc` and `pmm_alloc4g`.
unfoldable pub alloc_from : (start_at size : ℕ) → Pmm → Outcome (ℕ × Pmm)
alloc_from start_at size pmm = if pmm.locked then fatal else do
  let size' = align size page_size
  (bit, bm') ← find_and_set_multiple pmm.bm (size' / page_size) start_at
  elim bit [
    | none ↦ fatal
    | some c ↦ ok (
      virtual_address (c * page_size % u64_mod),
      record {
        usedmem = (pmm.usedmem + size') % u64_mod;
        freemem = (pmm.freemem + u64_mod - size') % u64_mod;
        bm = bm';
        locked = false;
      },
    )
  ]

-- The search is to start at 4 GiB. `gibs2bytes(4)` shifts an int.
unfoldable pub pmm_alloc : (size : ℕ) → Pmm → Outcome (ℕ × Pmm)
unfolding alloc_from gibs2bytes
pmm_alloc size pmm = alloc_from (gibs2bytes 4 / page_size) size pmm

unfoldable pub pmm_alloc4g : (size : ℕ) → Pmm → Outcome (ℕ × Pmm)
unfolding alloc_from
pmm_alloc4g size pmm = alloc_from 0 size pmm
