-- ===== src/Heap/AllocLaws/Serve.antt =====
-- What a request that can be held gets, and what it changes.
use neptun_os.Base.{
  ℕ, ◌+◌, ◌-◌, ◌%◌, ◌≤◌, ◌<◌, ◌≡◌, refl, ◌∙◌, sym, ap, true, false, List, [], ◌∷◌, ◌++◌, ok, arith,
  ◌==◌, if◌then◌else◌,
}
use neptun_os.Bits.{u64_mod}
use neptun_os.Arith.Laws.{align_bounds}
use neptun_os.Bitmap.{Bitmap}
use neptun_os.Bitmap.Range.{between}
use neptun_os.Heap.{Link, Heap}
use neptun_os.Heap.Links.{Cursor, rejoin, allocate_into_free}
use neptun_os.Heap.Memory.{redzone_size}
use neptun_os.Heap.Ops.{padded, fits, starts_at, alloc_at, alloc_nomutex, fill_redzones}
use neptun_os.Heap.Sums.{
  sum_of, total, sum_of-rejoin, sum_of-append, StandsIn, seek-StandsIn, seek_of_any_at, any_at,
  used_at, used_at-rejoin, used_at-ahead,
}
use neptun_os.Heap.Layout.{
  IsValid, HasPlace, used_bytes, free_bytes, odd_size, at_place, taken, total-split,
}
use neptun_os.Heap.AllocLaws.Split.{Split, allocate_into_free-Split}

-- A block of `n` bytes, redzones included, that the heap `h` has handed out at `start`.
pub record Served (h : Heap) (n start : ℕ) (h' : Heap) : Type 0 where
  pub valid : IsValid h'
  pub base : h'.heap_base ≡ h.heap_base
  pub extent : total h'.links ≡ total h.links
  pub inside : (h.heap_base ≤ start) × (start + n ≤ h.heap_base + total h.links)
  pub was_free :
      (x : ℕ) → between start (start + n) x ≡ true → used_at h.links h.heap_base x ≡ false
  pub now_used :
      (x : ℕ)
      → used_at h'.links h.heap_base x
        ≡ (if between start (start + n) x then true else used_at h.links h.heap_base x)
  pub usedmem : h'.usedmem ≡ h.usedmem + n
  pub freemem : h'.freemem + n ≡ h.freemem
  pub zones : h'.memory ≡ fill_redzones h.memory start n
  pub block : Cursor
  pub block_at : StandsIn h'.links h.heap_base (starts_at start) block
  pub block_busy : block.link.free ≡ false
  pub block_size : block.link.length ≡ n

module _ (n file line : ℕ) (h : Heap) (v : IsValid h) (p : HasPlace h.bm) (c : Cursor)
    (at : StandsIn h.links h.heap_base (fits n) c) (pos : 0 < n) (whole : n % 16 ≡ 0) where
  free : c.link.free ≡ true
  free = ground (arith, at.stops)

  long : n ≤ c.link.length
  long = ground (arith, at.stops)

  -- the sum of `f` over the chain, in three parts
  parts : (f : Link → ℕ) → sum_of f h.links ≡ sum_of f c.before + (f c.link + sum_of f c.after)
  parts f = ap (sum_of f) (sym at.chain) ∙ sum_of-rejoin f c.before (c.link ∷ c.after)

  link_whole : c.link.length % 16 ≡ 0
  link_whole = ground (arith, parts odd_size, v.sizes)

  module _ (l : Link) (behind : List Link) (bm' : Bitmap)
      (s : Split c.link n h.bm l behind bm') where
    labelled : Link
    labelled = record l { file = file; line = line }

    result : Heap
    unfolding labelled
    result = record h {
      links = rejoin c.before (labelled ∷ behind ++ c.after);
      bm = bm';
      usedmem = (h.usedmem + n) % u64_mod;
      freemem = (h.freemem + u64_mod - n) % u64_mod;
      memory = fill_redzones h.memory c.address n;
    }

    parts' :
        (f : Link → ℕ)
        → sum_of f result.links
          ≡ sum_of f c.before + (f labelled + (sum_of f behind + sum_of f c.after))
    unfolding result
    parts' f =
        sum_of-rejoin f c.before (labelled ∷ behind ++ c.after)
        ∙ ap (λ t. sum_of f c.before + (f labelled + t)) (sum_of-append f behind c.after)

    result-owned : (i : ℕ) → sum_of (at_place i) result.links ≡ taken bm' i
    unfolding labelled
    result-owned i =
        ground
          (arith, parts (at_place i), parts' (at_place i), s.places i, v.pool.owned i, s.same_place)

    extent : total result.links ≡ total h.links
    unfolding labelled
    extent = omega (arith, parts (λ l. l.length), parts' (λ l. l.length), s.rest, s.size)

    result-used : sum_of used_bytes result.links ≡ sum_of used_bytes h.links + n
    unfolding labelled
    result-used =
        ground (arith, parts used_bytes, parts' used_bytes, s.rest_used, s.size, s.busy, free)

    result-free : sum_of free_bytes result.links + n ≡ sum_of free_bytes h.links
    unfolding labelled
    result-free =
        ground (arith, parts free_bytes, parts' free_bytes, s.rest_free, s.rest, s.busy, free)

    result-sizes : sum_of odd_size result.links ≡ 0
    unfolding labelled
    result-sizes =
        ground
          (arith, parts odd_size, parts' odd_size, s.rest_sizes whole link_whole, s.size, v.sizes)

    counters : (result.usedmem ≡ h.usedmem + n) × (result.freemem + n ≡ h.freemem)
    unfolding result
    counters =
        omega (arith, v.used, v.unused, v.space, total-split h.links, result-free, result-used)

    result-IsValid : IsValid result
    result-IsValid = record {
      pool = record { valid = unfold result in s.valid; owned = unfold result in result-owned };
      sizes = result-sizes;
      space = unfold result in omega (arith, extent, v.space);
      used = counters.0 ∙ omega (arith, result-used, v.used);
      unused = omega (arith, result-free, v.unused, counters);
    }

    -- the bytes of the link, before and after
    link_bytes :
        (x : ℕ)
        → used_at (labelled ∷ behind ++ c.after) c.address x ≡ (
            if between c.address (c.address + n) x
            then true
            else used_at (c.link ∷ c.after) c.address x)
    unfolding labelled
    link_bytes x =
        ground (arith, s.bytes c.after (c.address + n) x, s.size, s.busy, s.rest, free, long)

    chain_before :
        (x : ℕ)
        → used_at (rejoin c.before (c.link ∷ c.after)) h.heap_base x ≡ used_at h.links h.heap_base x
    chain_before x = ap (λ t. used_at t h.heap_base x) at.chain

    was_free :
        (x : ℕ) → between c.address (c.address + n) x ≡ true → used_at h.links h.heap_base x ≡ false
    was_free x r =
        sym (chain_before x)
        ∙ used_at-ahead c.before (c.link ∷ c.after) h.heap_base c.address x at.at (ground arith)
        ∙ ground (arith, free, long)

    now_used :
        (x : ℕ)
        → used_at result.links h.heap_base x
          ≡ (if between c.address (c.address + n) x then true else used_at h.links h.heap_base x)
    unfolding result
    now_used x =
        used_at-rejoin c.before (c.link ∷ c.after) (labelled ∷ behind ++ c.after) h.heap_base
          c.address (between c.address (c.address + n)) true at.at (λ x r. ground arith) link_bytes
          x
        ∙ ap (λ t. if between c.address (c.address + n) x then true else t) (chain_before x)

    served : Served h n c.address result
    served = record {
      valid = result-IsValid;
      base = unfold result in refl;
      extent = extent;
      inside = (omega (arith, at.at), omega (arith, at.at, parts (λ l. l.length), long));
      was_free = was_free;
      now_used = now_used;
      usedmem = counters.0;
      freemem = counters.1;
      zones = unfold result in refl;
      block = record {
        before = c.before;
        link = labelled;
        after = behind ++ c.after;
        address = c.address;
      };
      block_at = record { chain = unfold result in refl; at = at.at; stops = ground arith };
      block_busy = unfold labelled in s.busy;
      block_size = unfold labelled in s.size;
    }

    alloc_at-result :
        allocate_into_free c.link n 0 h.bm ≡ ok (l, behind, bm')
        → alloc_at n file line h c ≡ ok ((c.address + redzone_size) % u64_mod, result)
    unfolding alloc_at result labelled
    alloc_at-result e = ground (arith, e)

  pub alloc_at-Served :
      (h' : Heap) × (alloc_at n file line h c ≡ ok ((c.address + redzone_size) % u64_mod, h'))
      × Served h n c.address h'
  alloc_at-Served =
      let (l, behind, bm', e, s) =
        allocate_into_free-Split c.link n h.bm v.pool.valid p free long in
      (result l behind bm' s, alloc_at-result l behind bm' s e, served l behind bm' s)

-- What a request takes from the heap: no less than its bytes and both redzones, in multiples of 16.
pub padded_bounds :
    (size : ℕ)
    → 0 < size
    → size + 256 ≤ u64_mod
    → (padded size % 16 ≡ 0)
      × (size + 128 ≤ padded size)
      × (padded size < size + 144)
      × (144 ≤ padded size)
padded_bounds size pos small = omega (arith, align_bounds size 16 (omega arith) (omega arith))

-- A well-formed heap with a free place in the pool and a free link that is long enough serves a request
-- of 1 to 2^64 - 256 bytes out of bytes that were free: they are now in use, no other byte changes its
-- state, the redzones are filled, the counters follow, and the heap stays well formed.
pub alloc_nomutex-Served :
    (size file line : ℕ) (h : Heap)
    → IsValid h
    → HasPlace h.bm
    → 0 < size
    → size + 256 ≤ u64_mod
    → any_at (fits (padded size)) h.heap_base h.links ≡ true
    → (start : ℕ) × (h' : Heap) × (alloc_nomutex size file line h ≡ ok (start + redzone_size, h'))
      × Served h (padded size) start h'
      × (size + 128 ≤ padded size)
unfolding alloc_nomutex
alloc_nomutex-Served size file line h v p pos small room =
    let (c, e) = seek_of_any_at (fits (padded size)) [] h.links h.heap_base room in
    let (whole, big, near, least) = padded_bounds size pos small in
    let positive : (size == 0) ≡ false = ground arith in
    let at = seek-StandsIn (fits (padded size)) h.links h.heap_base c e in
    let (h', e', s) = alloc_at-Served (padded size) file line h v p c at (omega arith) whole in
    let plain : (c.address + redzone_size) % u64_mod ≡ c.address + redzone_size =
      omega (arith, s.inside, v.space) in
    (c.address, h', rw (positive, e, e') (ap (λ t. ok (t, h')) plain), s, big)
