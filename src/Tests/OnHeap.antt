-- ===== src/Tests/OnHeap.antt =====
-- Heaps of 4096 bytes: as the constructor makes it, and with a block of 144 bytes in use.
use neptun_os.Base.{
  ℕ, zero, suc, ◌+◌, ◌-◌, ◌%◌, ◌≤◌, ◌≡◌, refl, true, false, List, [], ◌∷◌, ok, fatal, arith, inr,
  bit_or, length,
}
use neptun_os.Bits.{bit_at, testbit-bit_at, testbit-or}
use neptun_os.Arith.{align}
use neptun_os.Bitmap.{Bitmap}
use neptun_os.Heap.{Link, Heap}
use neptun_os.Heap.Links.{Cursor, rejoin}
use neptun_os.Heap.Memory.{redzone_size, memchk}
use neptun_os.Heap.Ops.{padded, fits, starts_at, intact, alloc_nomutex, free_nomutex}
use neptun_os.Heap.Aligned.{construct}
use neptun_os.Heap.Aligned.Outside.{construct-IsValid}
use neptun_os.Heap.Sums.{StandsIn, total, any_at, used_at}
use neptun_os.Heap.Layout.{IsValid, OwnsPool, HasPlace}
use neptun_os.Heap.AllocLaws.Serve.{Served, alloc_nomutex-Served}
use neptun_os.Heap.FreeLaws.Release.{Released, free_nomutex-Released}
use neptun_os.Heap.FreeLaws.Guards.{free_nomutex-corrupt}
use neptun_os.Heap.RoundTrip.{InPayload, written, Restored, free_nomutex-alloc_nomutex}

abbrev free_link : (index length : ℕ) → Link
free_link index length = record { index = index; file = 0; line = 0; length = length; free = true }

abbrev block : Link
block = record { index = 1; file = 0x9000; line = 12; length = 144; free = false }

-- a heap of 4096 bytes that begins at 0x10000, whose memory holds the byte `c` everywhere
abbrev heap_of : List Link → Bitmap → (usedmem c : ℕ) → Heap
heap_of links bm usedmem c = record {
  links = links;
  bm = bm;
  usedmem = usedmem;
  freemem = 4096 - usedmem;
  heap_base = 0x10000;
  memory = λ x. c;
}

abbrev one_place : Bitmap
one_place = record { buffer = bit_at 0 ∷ []; sz = 64 }

abbrev two_places : Bitmap
two_places = record { buffer = bit_or (bit_at 0) (bit_at 1) ∷ []; sz = 64 }

abbrev empty_heap : Heap
empty_heap = heap_of (free_link 0 4096 ∷ []) one_place 0 0

-- its redzones are whole where `c` is the magic byte
abbrev used_heap : (c : ℕ) → Heap
used_heap c = heap_of (block ∷ free_link 0 3952 ∷ []) two_places 144 c

empty_heap-IsValid : IsValid empty_heap
empty_heap-IsValid = record {
  pool = record { valid = omega arith; owned = λ i. ground (arith, testbit-bit_at 0 (i % 64)) };
  sizes = refl;
  space = omega arith;
  used = refl;
  unused = refl;
}

-- A link at place 1 and one at place 0 own the two places.
two_links-OwnsPool :
    (b n : ℕ) → OwnsPool (record block { length = b } ∷ free_link 0 n ∷ []) two_places
two_links-OwnsPool b n = record {
  valid = omega arith;
  owned = λ i. ground (
    arith,
    testbit-or (bit_at 0) (bit_at 1) (i % 64),
    testbit-bit_at 0 (i % 64),
    testbit-bit_at 1 (i % 64),
  );
}

two_free-OwnsPool : OwnsPool (rejoin [] (free_link 1 144 ∷ free_link 0 3952 ∷ [])) two_places
unfolding rejoin
two_free-OwnsPool = record { valid = omega arith; owned = (two_links-OwnsPool 144 3952).owned }

used_heap-IsValid : (c : ℕ) → IsValid (used_heap c)
used_heap-IsValid c = record {
  pool = two_links-OwnsPool 144 3952;
  sizes = refl;
  space = omega arith;
  used = refl;
  unused = refl;
}

empty_heap-HasPlace : HasPlace one_place
empty_heap-HasPlace = record {
  place = 5;
  inside = omega arith;
  clear = testbit-bit_at 0 5 (omega arith);
}

empty_heap-room : any_at (fits (padded 16)) 0x10000 empty_heap.links ≡ true
unfolding any_at align
empty_heap-room = refl

abbrev at_block : Cursor
at_block = record { before = []; link = block; after = free_link 0 3952 ∷ []; address = 0x10000 }

at_block-StandsIn : (c : ℕ) → StandsIn (used_heap c).links 0x10000 (starts_at 0x10000) at_block
unfolding rejoin
at_block-StandsIn c = record { chain = refl; at = refl; stops = refl }

free_nomutex-alloc_nomutex_example :
    (start : ℕ) × (h' : Heap) × (alloc_nomutex 16 0 7 empty_heap ≡ ok (start + redzone_size, h'))
    × ((memory : ℕ → ℕ)
        → InPayload h' start (padded 16) memory
        → (h'' : Heap) × (free_nomutex (start + redzone_size) (written h' memory) ≡ ok h'')
          × Restored empty_heap h'')
free_nomutex-alloc_nomutex_example =
    free_nomutex-alloc_nomutex 16 0 7 empty_heap empty_heap-IsValid empty_heap-HasPlace
      (omega arith) (omega arith) empty_heap-room

alloc_nomutex-Served_example :
    (start : ℕ) × (h' : Heap) × (alloc_nomutex 16 0 7 empty_heap ≡ ok (start + redzone_size, h'))
    × Served empty_heap (padded 16) start h'
    × (144 ≤ padded 16)
alloc_nomutex-Served_example =
    alloc_nomutex-Served 16 0 7 empty_heap empty_heap-IsValid empty_heap-HasPlace (omega arith)
      (omega arith) empty_heap-room

used_heap-intact : intact (used_heap 0xbc) at_block ≡ true
unfolding intact memchk
used_heap-intact = refl

free_nomutex-Released_example :
    (h' : Heap) × (free_nomutex 0x10040 (used_heap 0xbc) ≡ ok h')
    × Released (used_heap 0xbc) 144 0x10000 h'
free_nomutex-Released_example =
    free_nomutex-Released (used_heap 0xbc) 0x10040 at_block (used_heap-IsValid 0xbc) (omega arith)
      (omega arith) (at_block-StandsIn 0xbc) used_heap-intact

free_nomutex-corrupt_example : free_nomutex 0x10040 (used_heap 0) ≡ fatal
free_nomutex-corrupt_example =
    free_nomutex-corrupt (used_heap 0) 0x10040 at_block 0x10050 (used_heap-IsValid 0) (omega arith)
      (omega arith) (at_block-StandsIn 0) (inr (omega arith, omega arith)) (omega arith)

-- a page of memory that holds zeros
abbrev zeros : ℕ → List ℕ
zeros zero = []
zeros (suc n) = 0 ∷ zeros n

construct-IsValid_example :
    (h : Heap) × (construct (zeros 512) (λ x. 0) 0 211 0x10000 4096 ≡ ok h)
    × IsValid h
    × HasPlace h.bm
    × (h.heap_base ≡ 0x10000)
    × (total h.links ≡ 4096)
    × ((x : ℕ) → used_at h.links 0x10000 x ≡ false)
construct-IsValid_example =
    construct-IsValid (zeros 512) (λ x. 0) 0 211 0x10000 4096 refl (omega arith) refl (omega arith)
