-- ===== src/Heap/RoundTrip.antt =====
-- An allocation that is written to and then freed.
use mathlib.Core.Path.{subst, subst₂}
use neptun_os.Base.{
  ℕ, ◌+◌, ◌-◌, ◌≤◌, ◌<◌, ◌≡◌, ◌⊎◌, ◌∙◌, sym, ap, true, false, ok, arith, inl, inr, if◌then◌else◌,
}
use neptun_os.Bits.{u64_mod}
use neptun_os.Bitmap.Range.{between}
use neptun_os.Heap.{Heap}
use neptun_os.Heap.Memory.{memset, redzone_size, redzone_magic}
use neptun_os.Heap.Ops.{padded, fits, starts_at, alloc_nomutex, free_nomutex, intact}
use neptun_os.Heap.Sums.{any_at, used_at, StandsIn}
use neptun_os.Heap.Layout.{IsValid, HasPlace}
use neptun_os.Heap.AllocLaws.Serve.{Served, padded_bounds, alloc_nomutex-Served}
use neptun_os.Heap.FreeLaws.Release.{Released, free_nomutex-Released}
use neptun_os.Heap.FreeLaws.Guards.{memchk_passes}

-- The heap after its user has written into memory.
abbrev pub written : Heap → (ℕ → ℕ) → Heap
written h memory = record h { memory = memory }

-- `memory` differs from that of `h` at most in the bytes that the user of the block may write, those
-- between its redzones.
abbrev pub InPayload : Heap → ℕ → ℕ → (ℕ → ℕ) → Type 0
InPayload h start n memory =
    (x : ℕ) → (x < start + redzone_size) ⊎ (start + n - redzone_size ≤ x) → memory x ≡ h.memory x

written-IsValid : {h : Heap} (memory : ℕ → ℕ) → IsValid h → IsValid (written h memory)
written-IsValid memory v = record {
  pool = v.pool;
  sizes = v.sizes;
  space = v.space;
  used = v.used;
  unused = v.unused;
}

-- Both redzones of a block just served hold the magic byte, whatever was written between them.
zones_of_block :
    (h : Heap) (n start : ℕ) (h' : Heap) (memory : ℕ → ℕ)
    → 144 ≤ n
    → Served h n start h'
    → InPayload h' start n memory
    → (x : ℕ) → (x < start + redzone_size) ⊎ (start + n - redzone_size ≤ x)
    → start ≤ x
    → x < start + n
    → memory x ≡ redzone_magic
unfolding memset
zones_of_block h n start h' memory long s same x (inl side) low high =
    same x (inl side) ∙ ap (λ m. m x) s.zones ∙ ground arith
zones_of_block h n start h' memory long s same x (inr side) low high =
    same x (inr side) ∙ ap (λ m. m x) s.zones ∙ ground arith

intact_block :
    (h : Heap) (n start : ℕ) (h' : Heap) (memory : ℕ → ℕ) (s : Served h n start h')
    → 144 ≤ n
    → InPayload h' start n memory
    → intact (written h' memory) s.block ≡ true
unfolding intact
intact_block h n start h' memory s long same =
    let here : s.block.address ≡ start = ground (arith, s.block_at.stops) in
    let zone = zones_of_block h n start h' memory long s same in
    ground (
      arith,
      s.block_busy,
      s.block_size,
      memchk_passes memory s.block.address redzone_magic redzone_size
          (λ x p q. zone x (inl (omega arith)) (omega arith) (omega arith)),
      memchk_passes memory (s.block.address + s.block.link.length - redzone_size) redzone_magic
          redzone_size
          (λ x p q.
            zone x (inr (omega (arith, s.block_size))) (omega (arith, s.block_size))
              (omega (arith, s.block_size))),
    )

-- Back at the state of `h`: the same bytes are in use, and the counters are as they were.
pub record Restored (h h' : Heap) : Type 0 where
  pub valid : IsValid h'
  pub bytes : (x : ℕ) → used_at h'.links h.heap_base x ≡ used_at h.links h.heap_base x
  pub usedmem : h'.usedmem ≡ h.usedmem
  pub freemem : h'.freemem ≡ h.freemem

-- Taking a block that was free and giving it back leaves the state of every byte.
bytes_back :
    (h : Heap) (n start : ℕ) (h' : Heap) (memory : ℕ → ℕ) (h'' : Heap) (m q : ℕ)
    → Served h n start h'
    → Released (written h' memory) m q h''
    → m ≡ n
    → q ≡ start
    → (x : ℕ) → used_at h''.links h.heap_base x ≡ used_at h.links h.heap_base x
bytes_back h n start h' memory h'' m q s r em eq x =
    let freed : used_at h''.links h.heap_base x
        ≡ (if between q (q + m) x then false else used_at h'.links h.heap_base x) =
      subst
        (λ b. used_at h''.links b x ≡ (if between q (q + m) x then false else used_at h'.links b x))
        s.base (r.now_free x) in
    ground (arith, freed, s.now_used x, s.was_free x)

restore :
    (size : ℕ) (h : Heap) (start : ℕ) (h' : Heap) (memory : ℕ → ℕ)
    → IsValid h
    → 0 < size
    → size + 256 ≤ u64_mod
    → Served h (padded size) start h'
    → InPayload h' start (padded size) memory
    → (h'' : Heap) × (free_nomutex (start + redzone_size) (written h' memory) ≡ ok h'')
      × Restored h h''
restore size h start h' memory v pos small s same =
    let (whole, big, near, least) = padded_bounds size pos small in
    let back : start + redzone_size - redzone_size ≡ start = omega arith in
    let at : StandsIn h'.links h'.heap_base (starts_at (start + redzone_size - redzone_size))
        s.block =
      subst₂ (λ b t. StandsIn h'.links b (starts_at t) s.block) (sym s.base) (sym back)
        s.block_at in
    let (h'', e, r) =
      free_nomutex-Released (written h' memory) (start + redzone_size) s.block
        (written-IsValid memory s.valid) (omega arith) (omega (arith, s.inside, v.space)) at
        (intact_block h (padded size) start h' memory s least same) in
    (
      h'',
      e,
      record {
        valid = r.valid;
        bytes = λ x. bytes_back h (padded size) start h' memory h'' _ _ s r s.block_size back x;
        usedmem = omega (arith, r.usedmem, s.usedmem, s.block_size);
        freemem = omega (arith, r.freemem, s.freemem, s.block_size);
      },
    )

-- A well-formed heap with a free place in the pool and a free link that is long enough serves a request
-- of 1 to 2^64 - 256 bytes; whatever its user then writes between the redzones, freeing the block
-- succeeds and leaves the heap well formed, with the same bytes in use and both counters as before.
pub free_nomutex-alloc_nomutex :
    (size file line : ℕ) (h : Heap)
    → IsValid h
    → HasPlace h.bm
    → 0 < size
    → size + 256 ≤ u64_mod
    → any_at (fits (padded size)) h.heap_base h.links ≡ true
    → (start : ℕ) × (h' : Heap) × (alloc_nomutex size file line h ≡ ok (start + redzone_size, h'))
      × ((memory : ℕ → ℕ)
          → InPayload h' start (padded size) memory
          → (h'' : Heap) × (free_nomutex (start + redzone_size) (written h' memory) ≡ ok h'')
            × Restored h h'')
free_nomutex-alloc_nomutex size file line h v p pos small room =
    let (start, h', e, s, big) = alloc_nomutex-Served size file line h v p pos small room in
    (start, h', e, λ memory same. restore size h start h' memory v pos small s same)
