-- ===== src/Heap/FreeLaws/Fuse.antt =====
-- `merge`: neighbours that are free become one link. The heap describes the same bytes as before.
use neptun_os.Base.{
  ℕ, ◌+◌, ◌≡◌, refl, ◌∙◌, true, false, List, [], ◌∷◌, ok, arith, inl, inr, Bool-cases,
}
use neptun_os.Bitmap.{Bitmap}
use neptun_os.Heap.{Link}
use neptun_os.Heap.Links.{rejoin, delete_link, merge_next, merge_prev, merge}
use neptun_os.Heap.Sums.{sum_of, total, sum_of-rejoin, used_at, used_at-rejoin}
use neptun_os.Heap.Layout.{
  OwnsPool, used_bytes, free_bytes, odd_size, at_place, taken, delete_link-Deleted,
}

-- Two chains describe the same bytes from `base` on, in sizes that are in order if they were.
pub record Same (base : ℕ) (links links' : List Link) : Type 0 where
  pub extent : total links' ≡ total links
  pub used : sum_of used_bytes links' ≡ sum_of used_bytes links
  pub free : sum_of free_bytes links' ≡ sum_of free_bytes links
  pub sizes : sum_of odd_size links ≡ 0 → sum_of odd_size links' ≡ 0
  pub bytes : (x : ℕ) → used_at links' base x ≡ used_at links base x

Same-refl : (base : ℕ) (links : List Link) → Same base links links
Same-refl base links = record {
  extent = refl;
  used = refl;
  free = refl;
  sizes = λ h. h;
  bytes = λ x. refl;
}

Same-trans : {base : ℕ} {a b c : List Link} → Same base a b → Same base b c → Same base a c
Same-trans s t = record {
  extent = t.extent ∙ s.extent;
  used = t.used ∙ s.used;
  free = t.free ∙ s.free;
  sizes = λ h. t.sizes (s.sizes h);
  bytes = λ x. t.bytes x ∙ s.bytes x;
}

-- The free links `a` and `o` side by side.
module _ (base : ℕ) (before : List Link) (a o : Link) (rest : List Link) (bm : Bitmap)
    (fa : a.free ≡ true) (fo : o.free ≡ true)
    (pool : OwnsPool (rejoin before (a ∷ o ∷ rest)) bm) where
  joined : Link
  joined = record a { length = a.length + o.length }

  parts :
      (f : Link → ℕ)
      → sum_of f (rejoin before (a ∷ o ∷ rest)) ≡ sum_of f before + (f a + (f o + sum_of f rest))
  parts f = sum_of-rejoin f before (a ∷ o ∷ rest)

  parts' :
      (f : Link → ℕ)
      → sum_of f (rejoin before (joined ∷ rest)) ≡ sum_of f before + (f joined + sum_of f rest)
  parts' f = sum_of-rejoin f before (joined ∷ rest)

  held : taken bm o.index ≡ 1
  held = ground (arith, parts (at_place o.index), pool.owned o.index)

  regroup : base + total before + (a.length + o.length) ≡ base + total before + a.length + o.length
  regroup = omega arith

  fuse-Same : Same base (rejoin before (a ∷ o ∷ rest)) (rejoin before (joined ∷ rest))
  unfolding joined
  fuse-Same = record {
    extent = omega (arith, parts (λ l. l.length), parts' (λ l. l.length));
    used = ground (arith, parts used_bytes, parts' used_bytes, fa, fo);
    free = ground (arith, parts free_bytes, parts' free_bytes, fa, fo);
    sizes = λ h. ground (arith, parts odd_size, parts' odd_size);
    bytes =
        used_at-rejoin before (a ∷ o ∷ rest) (joined ∷ rest) base _ (λ x. false) false refl
          (λ x r. cc) (λ x. rw regroup (ground (arith, fa, fo)));
  }

  fuse : (bm' : Bitmap) × (delete_link o bm ≡ ok bm') × OwnsPool (rejoin before (joined ∷ rest)) bm'
  unfolding joined
  fuse =
      let (bm', e, d) = delete_link-Deleted o bm pool.valid held in
      (
        bm',
        e,
        record {
          valid = d.valid;
          owned =
              λ i. omega (arith, parts (at_place i), parts' (at_place i), pool.owned i, d.places i);
        },
      )

merge_next-Same :
    (base : ℕ) (before : List Link) (l : Link) (after : List Link) (bm : Bitmap)
    → l.free ≡ true
    → OwnsPool (rejoin before (l ∷ after)) bm
    → (l' : Link) × (after' : List Link) × (bm' : Bitmap) × (merge_next l after bm
        ≡ ok (l', after', bm'))
      × (l'.free ≡ true)
      × OwnsPool (rejoin before (l' ∷ after')) bm'
      × Same base (rejoin before (l ∷ after)) (rejoin before (l' ∷ after'))
unfolding merge_next joined
merge_next-Same base before l [] bm fl pool =
    (l, [], bm, refl, fl, pool, Same-refl base (rejoin before (l ∷ [])))
merge_next-Same base before l (o ∷ after) bm fl pool = elim (Bool-cases o.free) [
  | inl fo ↦
      let (bm', e, pool') = fuse base before l o after bm fl fo pool in
      (
        record l { length = l.length + o.length },
        after,
        bm',
        ground (arith, e),
        fl,
        pool',
        fuse-Same base before l o after bm fl fo pool,
      )
  | inr fo ↦
      (l, o ∷ after, bm, ground arith, fl, pool, Same-refl base (rejoin before (l ∷ o ∷ after)))
]

merge_prev-Same :
    (base : ℕ) (before : List Link) (l : Link) (after : List Link) (bm : Bitmap)
    → l.free ≡ true
    → OwnsPool (rejoin before (l ∷ after)) bm
    → (links' : List Link) × (bm' : Bitmap) × (merge_prev before l after bm ≡ ok (links', bm'))
      × OwnsPool links' bm'
      × Same base (rejoin before (l ∷ after)) links'
unfolding merge_prev joined rejoin
merge_prev-Same base [] l after bm fl pool = (l ∷ after, bm, refl, pool, Same-refl base (l ∷ after))
merge_prev-Same base (prev ∷ before) l after bm fl pool = elim (Bool-cases prev.free) [
  | inl fp ↦
      let (bm', e, pool') = fuse base before prev l after bm fp fl pool in
      (
        rejoin before (record prev { length = prev.length + l.length } ∷ after),
        bm',
        ground (arith, e),
        pool',
        fuse-Same base before prev l after bm fp fl pool,
      )
  | inr fp ↦ (
    rejoin before (prev ∷ l ∷ after),
    bm,
    ground arith,
    pool,
    Same-refl base (rejoin before (prev ∷ l ∷ after)),
  )
]

-- In a chain that owns its places of the pool, merging a free link with its free neighbours never
-- faults; the new chain covers the same bytes in the same state, and owns its places of the pool.
pub merge-Same :
    (base : ℕ) (before : List Link) (l : Link) (after : List Link) (bm : Bitmap)
    → l.free ≡ true
    → OwnsPool (rejoin before (l ∷ after)) bm
    → (links' : List Link) × (bm' : Bitmap) × (merge before l after bm ≡ ok (links', bm'))
      × OwnsPool links' bm'
      × Same base (rejoin before (l ∷ after)) links'
unfolding merge
merge-Same base before l after bm fl pool =
    let (l1, after1, bm1, e1, fl1, pool1, s1) = merge_next-Same base before l after bm fl pool in
    let (links2, bm2, e2, pool2, s2) = merge_prev-Same base before l1 after1 bm1 fl1 pool1 in
    (links2, bm2, rw (e1, e2), pool2, Same-trans s1 s2)
