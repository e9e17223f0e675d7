-- ===== src/Pmm/Init.antt =====
-- `pmm_init` of kernel/src/mm/pmm.cc, given the memory map that the boot loader hands over and the memory
-- in which it puts the bitmap.
use neptun_os.Base.{
  ℕ, zero, suc, ◌+◌, ◌-◌, ◌/◌, ◌%◌, Bool, true, false, ◌&&◌, not, Option, none, some, List, [], ◌∷◌,
  Outcome, ok, fatal, ◌>>=◌, leb, ◌==◌, if◌then◌else◌,
}
use neptun_os.Bits.{u64_mod}
use neptun_os.Arith.{align, virtual_address, physical_address, mibs2bytes}
use neptun_os.Bitmap
use neptun_os.Bitmap.{Bitmap, set_bit}
use neptun_os.Watermark.{Watermark}
use neptun_os.Pmm.{Pmm, page_size}

-- An entry of the memory map.
pub record Entry : Type 0 where
  pub base : ℕ
  pub length : ℕ
  pub kind : ℕ

-- `LIMINE_MEMMAP_USABLE` and `LIMINE_MEMMAP_RESERVED`
abbrev pub usable : ℕ
usable = 0

abbrev pub reserved : ℕ
reserved = 1

-- `WM_SIZE`
unfoldable pub wm_size : ℕ
wm_size = mibs2bytes 64

-- The last entry, or the one before it if the last is reserved. A map without it is read out of bounds.
unfoldable pub last_entry : List Entry → Outcome Entry
last_entry [] = fatal
last_entry (e ∷ []) = if e.kind == reserved then fatal else ok e
last_entry (d ∷ e ∷ []) = if e.kind == reserved then ok d else ok e
last_entry (d ∷ e ∷ f ∷ entries) = last_entry (e ∷ f ∷ entries)

-- The first usable entry with room for the watermark area and the bitmap.
unfoldable pub candidate : (bm_bytes : ℕ) → List Entry → Option Entry
candidate bm_bytes [] = none
candidate bm_bytes (e ∷ entries) =
    let rest = candidate bm_bytes entries in
    if (e.kind == usable) && leb (bm_bytes + wm_size) e.length then some e else rest

-- `for (j = ...; ...; j += PMM_PAGESIZE) pmm_bm->set((base + j) / PMM_PAGESIZE, val)`, with the rounds left.
unfoldable pub set_pages : (rounds base j : ℕ) → Bool → Bitmap → Outcome Bitmap
set_pages zero base j val bm = ok bm
set_pages (suc k) base j val bm =
    set_bit bm ((base + j) % u64_mod / page_size) val >>= set_pages k base (j + page_size) val

-- The pages of one usable entry; `buffer` is the address of the bitmap's words.
unfoldable pub take_entry : (buffer bm_size : ℕ) → Entry → Bitmap → Outcome Bitmap
take_entry buffer bm_size e bm =
    set_pages (e.length / page_size) (align e.base page_size) 0 false bm >>= λ bm'.
    if (e.base + wm_size) % u64_mod == physical_address buffer
    then set_pages ((bm_size + wm_size + (page_size - 1)) / page_size) e.base 0 true bm'
    else ok bm'

unfoldable pub take_entries :
    (buffer bm_size freemem : ℕ) → List Entry → Bitmap → Outcome (ℕ × Bitmap)
take_entries buffer bm_size freemem [] bm = ok (freemem, bm)
take_entries buffer bm_size freemem (e ∷ entries) bm =
    if not (e.kind == usable)
    then take_entries buffer bm_size freemem entries bm
    else (take_entry buffer bm_size e bm
        >>= take_entries buffer bm_size ((freemem + e.length) % u64_mod) entries)

-- `memory` gives the words behind an address.
unfoldable pub pmm_init : (memory : ℕ → List ℕ) → List Entry → Outcome (Pmm × Watermark)
pmm_init memory entries = do
  last ← last_entry entries
  let total = (last.base + last.length) % u64_mod
  let bm_size = align total page_size / page_size
  e ← elim (candidate (bm_size / 8) entries) [ none ↦ fatal | some e ↦ ok e ]
  let buffer = virtual_address ((e.base + wm_size) % u64_mod)
  bm ← Bitmap.init (memory buffer) bm_size true
  (freemem, bm') ← take_entries buffer bm_size 0 entries bm
  bm'' ← set_bit bm' 0 true
  ok (
    record { usedmem = 0; freemem = freemem; bm = bm''; locked = false },
    record { cursor = virtual_address e.base; free = wm_size },
  )
