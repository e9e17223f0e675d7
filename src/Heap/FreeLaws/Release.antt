-- ===== src/Heap/FreeLaws/Release.antt =====
-- Freeing a block whose redzones are whole.
use neptun_os.Base.{
  ℕ, ◌+◌, ◌-◌, ◌%◌, ◌≤◌, ◌<◌, ◌≡◌, refl, ◌∙◌, sym, ap, true, false, some, List, [], ◌∷◌, ◌++◌, ok,
  arith, ◌==◌, if◌then◌else◌,
}
use mathlib.Core.List.{append-nil}
use mathlib.Core.Path.{subst}
use neptun_os.Bits.{u64_mod}
use neptun_os.Bitmap.{Bitmap}
use neptun_os.Bitmap.Range.{between}
use neptun_os.Heap.{Link, Heap}
use neptun_os.Heap.Links.{Cursor, rejoin, seek}
use neptun_os.Heap.Memory.{redzone_size}
use neptun_os.Heap.Ops.{starts_at, find_at, intact, check, free_at, free_nomutex, sub64}
use neptun_os.Heap.Sums.{sum_of, total, sum_of-rejoin, StandsIn, used_at, used_at-rejoin}
use neptun_os.Heap.Layout.{
  IsValid, OwnsPool, used_bytes, free_bytes, odd_size, at_place, total-split,
}
use neptun_os.Heap.FreeLaws.Fuse.{Same, merge-Same}

-- A walk to address `p` passes all links that begin, and so end, before it.
seek_passes :
    (p : ℕ) (before passed rest : List Link) (base : ℕ)
    → sum_of odd_size before ≡ 0
    → base + total before ≤ p
    → seek (starts_at p) passed base (rejoin before rest)
      ≡ seek (starts_at p) (before ++ passed) (base + total before) rest
unfolding rejoin
seek_passes p [] passed rest base sizes h = ap (λ t. seek (starts_at p) passed t rest) (omega arith)
seek_passes p (l ∷ before) passed rest base sizes h =
    let smaller : sum_of odd_size before ≡ 0 = omega arith in
    let miss : (base + total before == p) ≡ false = ground arith in
    seek_passes p before passed (l ∷ rest) base smaller (omega arith)
    ∙ unfold seek in
      rw (seek, miss) (ap (λ t. seek (starts_at p) (l ∷ before ++ passed) t rest) (omega arith))

-- The walk to the start of a block finds that block.
pub find_at-StandsIn :
    (h : Heap) (p : ℕ) (c : Cursor)
    → sum_of odd_size h.links ≡ 0
    → StandsIn h.links h.heap_base (starts_at p) c
    → find_at p h ≡ some c
unfolding find_at
find_at-StandsIn h p c sizes at =
    ap (seek (starts_at p) [] h.heap_base) (sym at.chain)
    ∙ seek_passes p c.before [] (c.link ∷ c.after) h.heap_base before_whole
        (omega (arith, at.at, here))
    ∙ ap (λ t. seek (starts_at p) t (h.heap_base + total c.before) (c.link ∷ c.after))
        (append-nil c.before)
    ∙ ap (λ t. seek (starts_at p) c.before t (c.link ∷ c.after)) (sym at.at)
    ∙ unfold seek in rw (seek, at.stops)
  where
    here : c.address ≡ p
    here = ground (arith, at.stops)

    before_whole : sum_of odd_size c.before ≡ 0
    before_whole = omega (
      arith,
      sum_of-rejoin odd_size c.before (c.link ∷ c.after),
      ap (sum_of odd_size) at.chain,
      sizes,
    )

-- The block of `n` bytes at `start` has been given back.
pub record Released (h : Heap) (n start : ℕ) (h' : Heap) : Type 0 where
  pub valid : IsValid h'
  pub base : h'.heap_base ≡ h.heap_base
  pub extent : total h'.links ≡ total h.links
  pub now_free :
      (x : ℕ)
      → used_at h'.links h.heap_base x
        ≡ (if between start (start + n) x then false else used_at h.links h.heap_base x)
  pub usedmem : h'.usedmem + n ≡ h.usedmem
  pub freemem : h'.freemem ≡ h.freemem + n
  pub same_memory : h'.memory ≡ h.memory

module _ (h : Heap) (v : IsValid h) (p : ℕ) (c : Cursor)
    (at : StandsIn h.links h.heap_base (starts_at p) c) (busy : c.link.free ≡ false) where
  freed : Link
  freed = record c.link { file = 0; line = 0; free = true }

  parts : (f : Link → ℕ) → sum_of f h.links ≡ sum_of f c.before + (f c.link + sum_of f c.after)
  parts f = ap (sum_of f) (sym at.chain) ∙ sum_of-rejoin f c.before (c.link ∷ c.after)

  parts' :
      (f : Link → ℕ)
      → sum_of f (rejoin c.before (freed ∷ c.after))
        ≡ sum_of f c.before + (f freed + sum_of f c.after)
  parts' f = sum_of-rejoin f c.before (freed ∷ c.after)

  pool : OwnsPool (rejoin c.before (freed ∷ c.after)) h.bm
  unfolding freed
  pool = record {
    valid = v.pool.valid;
    owned = λ i. omega (arith, parts (at_place i), parts' (at_place i), v.pool.owned i);
  }

  sizes : sum_of odd_size (rejoin c.before (freed ∷ c.after)) ≡ 0
  unfolding freed
  sizes = omega (arith, parts odd_size, parts' odd_size, v.sizes)

  bytes :
      (x : ℕ)
      → used_at (rejoin c.before (freed ∷ c.after)) h.heap_base x ≡ (
          if between c.address (c.address + c.link.length) x
          then false
          else used_at h.links h.heap_base x)
  unfolding freed
  bytes x =
      used_at-rejoin c.before (c.link ∷ c.after) (freed ∷ c.after) h.heap_base c.address
        (between c.address (c.address + c.link.length)) false at.at (λ x r. ground arith)
        (λ x. ground arith) x
      ∙ ap (λ t. if between c.address (c.address + c.link.length) x then false else t)
          (ap (λ t. used_at t h.heap_base x) at.chain)

  module _ (links' : List Link) (bm' : Bitmap) (pool' : OwnsPool links' bm')
      (same : Same h.heap_base (rejoin c.before (freed ∷ c.after)) links') where
    result : Heap
    result = record h {
      links = links';
      bm = bm';
      usedmem = sub64 h.usedmem c.link.length;
      freemem = (h.freemem + c.link.length) % u64_mod;
    }

    extent : total links' ≡ total h.links
    unfolding freed
    extent = omega (arith, same.extent, parts (λ l. l.length), parts' (λ l. l.length))

    used : sum_of used_bytes links' + c.link.length ≡ sum_of used_bytes h.links
    unfolding freed
    used = ground (arith, same.used, parts used_bytes, parts' used_bytes, busy)

    unused : sum_of free_bytes links' ≡ sum_of free_bytes h.links + c.link.length
    unfolding freed
    unused = ground (arith, same.free, parts free_bytes, parts' free_bytes, busy)

    counters :
        (result.usedmem + c.link.length ≡ h.usedmem) × (result.freemem ≡ h.freemem + c.link.length)
    unfolding result
    counters = omega (
      arith,
      v.used,
      v.unused,
      v.space,
      total-split h.links,
      total-split links',
      extent,
      used,
      unused,
    )

    released : Released h c.link.length c.address result
    unfolding result
    released = record {
      valid = record {
        pool = pool';
        sizes = same.sizes sizes;
        space = omega (arith, extent, v.space);
        used = omega (arith, counters, used, v.used);
        unused = omega (arith, counters, unused, v.unused);
      };
      base = refl;
      extent = extent;
      now_free = λ x. same.bytes x ∙ bytes x;
      usedmem = counters.0;
      freemem = counters.1;
      same_memory = refl;
    }

  -- At a block in use, the rest of `free_nomutex` gives its bytes back.
  pub free_at-Released : (h' : Heap) × (free_at h c ≡ ok h') × Released h c.link.length c.address h'
  unfolding free_at
  free_at-Released =
      let (links', bm', e, pool', same) =
        merge-Same h.heap_base c.before freed c.after h.bm (unfold freed in refl) pool in
      (result links' bm' pool' same, unfold result freed in rw e, released links' bm' pool' same)

check_ok :
    (h : Heap) (p : ℕ) (c : Cursor)
    → find_at (sub64 p redzone_size) h ≡ some c
    → intact h c ≡ true
    → check p h ≡ ok tt
unfolding check
check_ok h p c found whole = rw (check, found, whole)

-- Given the address behind the first redzone of a block in use whose redzones are whole, a well-formed
-- heap frees the block: its bytes are then free, every other byte keeps its state, memory is not
-- written, the counters follow, and the heap stays well formed.
pub free_nomutex-Released :
    (h : Heap) (p : ℕ) (c : Cursor)
    → IsValid h
    → redzone_size ≤ p
    → p < u64_mod
    → StandsIn h.links h.heap_base (starts_at (p - redzone_size)) c
    → intact h c ≡ true
    → (h' : Heap) × (free_nomutex p h ≡ ok h') × Released h c.link.length (p - redzone_size) h'
unfolding free_nomutex
free_nomutex-Released h p c v low high at whole =
    let start : sub64 p redzone_size ≡ p - redzone_size = omega arith in
    let busy : c.link.free ≡ false = unfold intact in ground (arith, whole) in
    let non_null : (p == 0) ≡ false = ground arith in
    let here : c.address ≡ p - redzone_size = ground (arith, at.stops) in
    let found = ap (λ t. find_at t h) start ∙ find_at-StandsIn h (p - redzone_size) c v.sizes at in
    let (h', e, r) = free_at-Released h v (p - redzone_size) c at busy in
    (
      h',
      rw (non_null, check_ok h p c found whole, found, e),
      subst (λ t. Released h c.link.length t h') here r,
    )
