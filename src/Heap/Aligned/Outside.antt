-- ===== src/Heap/Aligned/Outside.antt =====
-- The constructor makes a heap in order; `alloc_aligned` on a heap where nothing fits.
use neptun_os.Base.{
  ℕ, ◌+◌, ◌%◌, ◌<◌, ◌≡◌, refl, ◌∙◌, Bool, true, false, none, List, [], ◌∷◌, ok, arith, ◌==◌, length,
}
use neptun_os.Bits.{u64_mod}
use neptun_os.Arith.{align_down}
use neptun_os.Bitmap
use neptun_os.Bitmap.{Bitmap, set_bit}
use neptun_os.Bitmap.View.{bit, Updated, set_bit-Updated}
use neptun_os.Bitmap.Init.{init_lem}
use neptun_os.Heap.{Link, Heap}
use neptun_os.Heap.Links.{seek}
use neptun_os.Heap.Memory.{redzone_size}
use neptun_os.Heap.Ops.{padded, sub64, fill_redzones}
use neptun_os.Heap.Aligned.{round_alignment, stops_at, alloc_aligned, capacity, construct}
use neptun_os.Heap.Sums.{total, any_at, used_at}
use neptun_os.Heap.Layout.{IsValid, HasPlace}

-- A walk that nothing stops finds no link.
seek-none :
    (stop : Link → ℕ → Bool) (before links : List Link) (addr : ℕ)
    → any_at stop addr links ≡ false
    → seek stop before addr links ≡ none
unfolding seek any_at
seek-none stop before [] addr h = refl
seek-none stop before (l ∷ links) addr h =
    ground (arith, seek-none stop (l ∷ before) links (addr + l.length))

-- the first address behind the heap
abbrev pub heap_end : Heap → ℕ
heap_end h = h.heap_base + total h.links

-- On a well-formed heap that ends more than 64 bytes below the end of the address space and in which no
-- link can take the request, alloc_aligned returns a block behind the end of the heap, writes redzones
-- there and changes the counters.
pub alloc_aligned-outside :
    (own_file own_line size alignment file line : ℕ) (h : Heap)
    → IsValid h
    → heap_end h + redzone_size < u64_mod
    → any_at (stops_at (padded size) (round_alignment alignment)) h.heap_base h.links ≡ false
    → alloc_aligned own_file own_line size alignment file line h
      ≡ ok (
        heap_end h + redzone_size,
        record h {
          usedmem = (h.usedmem + padded size) % u64_mod;
          freemem = sub64 h.freemem (padded size);
          memory = fill_redzones h.memory (heap_end h) (padded size);
        },
      )
unfolding alloc_aligned
alloc_aligned-outside own_file own_line size alignment file line h v room nothing =
    let end : heap_end h % u64_mod ≡ heap_end h = omega (arith, v.space) in
    let next : (heap_end h + redzone_size) % u64_mod ≡ heap_end h + redzone_size = omega arith in
    rw (
      seek-none (stops_at (padded size) (round_alignment alignment)) [] h.links h.heap_base nothing,
      end,
      next,
    )

-- one free link of all bytes
abbrev fresh : Bitmap → (ℕ → ℕ) → (own_file own_line heap size : ℕ) → Heap
fresh bm memory own_file own_line heap size = record {
  links = record { index = 0; file = own_file; line = own_line; length = size; free = true } ∷ [];
  bm = bm;
  usedmem = 0;
  freemem = size;
  heap_base = heap;
  memory = memory;
}

fresh-IsValid :
    (bm bm' : Bitmap) (memory : ℕ → ℕ) (own_file own_line heap size : ℕ)
    → Bitmap.View.IsValid bm
    → bm.sz ≡ 64
    → ((i : ℕ) → i < bm.sz → bit bm i ≡ false)
    → Updated bm bm' (λ i. 0 == i) true
    → 0 < size
    → size % 16 ≡ 0
    → heap + size < u64_mod
    → IsValid (fresh bm' memory own_file own_line heap size)
fresh-IsValid bm bm' memory own_file own_line heap size v sz clear u pos whole fits = record {
  pool = record {
    valid = omega (arith, u.size, u.words);
    owned = λ i. ground (arith, u.bits i, u.size, clear i);
  };
  sizes = ground arith;
  space = omega arith;
  used = refl;
  unused = omega arith;
}

-- Over a page for the bitmap and a region of a positive multiple of 16 bytes inside the address space,
-- the constructor returns a well-formed heap in which every byte is free and the pool has a free place.
pub construct-IsValid :
    (page : List ℕ) (memory : ℕ → ℕ) (own_file own_line heap size : ℕ)
    → length page ≡ 512
    → 0 < size
    → size % 16 ≡ 0
    → heap + size < u64_mod
    → (h : Heap) × (construct page memory own_file own_line heap size ≡ ok h)
      × IsValid h
      × HasPlace h.bm
      × (h.heap_base ≡ heap)
      × (total h.links ≡ size)
      × ((x : ℕ) → used_at h.links heap x ≡ false)
unfolding construct
construct-IsValid page memory own_file own_line heap size pages pos whole fits =
    let sized : align_down capacity 64 ≡ 64 = unfold align_down in refl in
    let (bm, e, sz, v, clear) = init_lem page capacity false (omega (arith, sized)) in
    let (bm', e', u) = set_bit-Updated bm v 0 (omega (arith, sz, sized)) true in
    (
      fresh bm' memory own_file own_line heap size,
      rw (e, e'),
      fresh-IsValid bm bm' memory own_file own_line heap size v (sz ∙ sized) clear u pos whole fits,
      record {
        place = 1;
        inside = omega (arith, sz, sized, u.size);
        clear = u.bits 1 ∙ clear 1 (omega (arith, sz, sized));
      },
      refl,
      omega arith,
      λ x. ground arith,
    )
