-- ===== src/Heap/Aligned.antt =====
-- `alloc_aligned` of MemoryMgr, and its constructor. `own_file` is the address of the text of __FILE__.
pub mod Outside
use neptun_os.Base.{
  ℕ, ◌+◌, ◌-◌, ◌/◌, ◌*◌, ◌%◌, ◌^◌, Bool, true, false, ◌&&◌, ◌||◌, not, Option, none, some, List, [],
  ◌∷◌, ◌++◌, Outcome, ok, fatal, ◌>>=◌, leb, ltb, ◌==◌, if◌then◌else◌,
}
use neptun_os.Bits.{u64_mod}
use neptun_os.Arith.{align, isaligned}
use neptun_os.Bitmap
use neptun_os.Bitmap.{Bitmap, set_bit}
use neptun_os.Heap.{Link, Heap}
use neptun_os.Heap.Links.{Cursor, rejoin, seek, create_link, allocate_into_free}
use neptun_os.Heap.Memory.{redzone_size, min_alloc}
use neptun_os.Heap.Ops.{sub64, padded, fill_redzones}
use neptun_os.Heap.Sums.{total}

-- `align = align(align, VMM_MIN_ALLOC)` on a u32
abbrev pub round_alignment : ℕ → ℕ
round_alignment a = (a + (min_alloc - 1)) % 2 ^ 32 / min_alloc * min_alloc % 2 ^ 32

-- `alignfix` at a link whose memory begins at `addr`
unfoldable pub gap : (alignment addr : ℕ) → ℕ
gap alignment addr =
    sub64 (align ((addr + redzone_size) % u64_mod) alignment) ((addr + redzone_size) % u64_mod)

unfoldable pub aligned_at : (alignment addr : ℕ) → Bool
aligned_at alignment addr = isaligned ((addr + redzone_size) % u64_mod) alignment

-- Where the loop does not `goto cont`. With a zero alignment the division faults at the first link that
-- is free and long enough, and with a zero gap the assertion fails; `place_aligned` tells these apart.
unfoldable pub stops_at : (size alignment : ℕ) → Link → ℕ → Bool
stops_at size alignment l addr =
    l.free
    && leb size l.length
    && ((alignment == 0)
        || (aligned_at alignment addr
            || (ltb size l.length
                && ((gap alignment addr == 0) || leb (size + gap alignment addr) l.length))))

-- The link for what remains behind the block, if anything does.
unfoldable pub remaining_link :
    (own_file own_line remaining : ℕ) → Bitmap → Outcome (List Link × Bitmap)
remaining_link own_file own_line remaining bm =
    if remaining == 0
    then ok ([], bm)
    else (create_link bm >>= λ (i, bm').
        if remaining % 16 == 0
        then ok (
          record { index = i; file = own_file; line = own_line; length = remaining; free = true }
              ∷ [],
          bm',
        )
        else fatal)

-- The block behind a gap of `fix` bytes: `... l ...` becomes `... alignfixl l remainingl ...`.
unfoldable pub place_behind_gap :
    (own_file own_line size fix file line : ℕ) → Heap → Cursor → Outcome (ℕ × List Link × Bitmap)
place_behind_gap own_file own_line size fix file line h c = if fix == 0 then fatal else do
  (i, bm') ← create_link h.bm
  (behind, bm'') ←
      if not (fix % min_alloc == 0)
      then fatal
      else if ltb (c.link.length - fix) size
      then fatal
      else remaining_link own_file own_line (c.link.length - fix - size) bm'
  ok (
    (c.address + fix) % u64_mod,
    rejoin c.before (
        record { index = i; file = file; line = line; length = fix; free = true }
          ∷ record c.link { free = false; length = size; file = file; line = line }
          ∷ behind
        ++ c.after),
    bm'',
  )

-- What the loop does at the link where it stops.
unfoldable pub place_aligned :
    (own_file own_line size alignment file line : ℕ)
    → Heap
    → Cursor
    → Outcome (ℕ × List Link × Bitmap)
place_aligned own_file own_line size alignment file line h c =
    if alignment == 0
    then fatal
    else if aligned_at alignment c.address
    then (allocate_into_free c.link size 0 h.bm >>= λ (l, behind, bm'). ok (
      c.address,
      rejoin c.before (record l { file = file; line = line } ∷ behind ++ c.after),
      bm',
    ))
    else place_behind_gap own_file own_line size (gap alignment c.address) file line h c

-- A loop that finds no link ends at the end of the heap, and the rest goes on from there.
unfoldable pub alloc_aligned :
    (own_file own_line size alignment file line : ℕ) → Heap → Outcome (ℕ × Heap)
alloc_aligned own_file own_line size alignment file line h = do
  let size' = padded size
  let alignment' = round_alignment alignment
  (address, links', bm') ← elim (seek (stops_at size' alignment') [] h.heap_base h.links) [
    | none ↦ ok ((h.heap_base + total h.links) % u64_mod, h.links, h.bm)
    | some c ↦ place_aligned own_file own_line size' alignment' file line h c
  ]
  ok (
    (address + redzone_size) % u64_mod,
    record h {
      links = links';
      bm = bm';
      usedmem = (h.usedmem + size') % u64_mod;
      freemem = sub64 h.freemem size';
      memory = fill_redzones h.memory address size';
    },
  )

-- `PMM_PAGESIZE / sizeof(link_t)`
abbrev pub capacity : ℕ
capacity = 0x1000 / 48

-- The constructor, given what is in the page for the bitmap and in memory: one free link of all bytes.
unfoldable pub construct :
    (page : List ℕ) (memory : ℕ → ℕ) (own_file own_line heap size : ℕ) → Outcome Heap
construct page memory own_file own_line heap size = do
  bm ← Bitmap.init page capacity false
  bm' ← set_bit bm 0 true
  ok (record {
    links = record { index = 0; file = own_file; line = own_line; length = size; free = true } ∷ [];
    bm = bm';
    usedmem = 0;
    freemem = size;
    heap_base = heap;
    memory = memory;
  })
