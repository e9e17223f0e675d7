-- ===== src/Heap/AllocLaws/Split.antt =====
-- `allocate_into_free` on a free link that is long enough.
use neptun_os.Base.{
  ℕ, ◌+◌, ◌-◌, ◌%◌, ◌≤◌, ◌≡◌, ◌≢◌, refl, true, false, List, [], ◌∷◌, ◌++◌, ok, arith, ltb,
  if◌then◌else◌,
}
use native.Mathlib.Nat.{add-zero}
use native.Mathlib.Decide.{ℕ_discrete}
use neptun_os.Bitmap
use neptun_os.Bitmap.{Bitmap}
use neptun_os.Heap.{Link}
use neptun_os.Heap.Links.{create_link, allocate_into_free}
use neptun_os.Heap.Sums.{sum_of, total, used_at, used_at-below}
use neptun_os.Heap.Layout.{
  used_bytes, free_bytes, odd_size, at_place, taken, HasPlace, create_link-Created,
}

-- The link `l` of `n` bytes that is now in use, and what is put behind it: together they describe what
-- `current` did, all but `n` bytes of it free.
pub record Split (current : Link) (n : ℕ) (bm : Bitmap) (l : Link) (behind : List Link)
    (bm' : Bitmap) : Type 0 where
  pub busy : l.free ≡ false
  pub size : l.length ≡ n
  pub same_place : l.index ≡ current.index
  pub rest : n + total behind ≡ current.length
  pub rest_used : sum_of used_bytes behind ≡ 0
  pub rest_free : sum_of free_bytes behind ≡ total behind
  pub rest_sizes : n % 16 ≡ 0 → current.length % 16 ≡ 0 → sum_of odd_size behind ≡ 0
  pub valid : Bitmap.View.IsValid bm'
  pub places : (j : ℕ) → taken bm' j ≡ taken bm j + sum_of (at_place j) behind
  pub bytes :
      (after : List Link) (addr x : ℕ)
      → used_at (behind ++ after) addr x
        ≡ (if ltb x (addr + total behind) then false else used_at after (addr + total behind) x)

module _ (current : Link) (n : ℕ) (bm : Bitmap) (v : Bitmap.View.IsValid bm) (p : HasPlace bm)
    (free : current.free ≡ true) (long : n ≤ current.length) where
  no_rest :
      current.length ≡ n
      → allocate_into_free current n 0 bm ≡ ok (record current { free = false }, [], bm)
  unfolding allocate_into_free
  no_rest e = ground arith

  some_rest :
      (i : ℕ) (bm' : Bitmap)
      → current.length ≢ n
      → create_link bm ≡ ok (i, bm')
      → allocate_into_free current n 0 bm
        ≡ ok (
          record current { free = false; length = n },
          record { index = i; file = 0; line = 0; length = current.length - n; free = true } ∷ [],
          bm',
        )
  unfolding allocate_into_free
  some_rest i bm' ne e = ground arith

  pub allocate_into_free-Split :
      (l : Link) × (behind : List Link) × (bm' : Bitmap) × (allocate_into_free current n 0 bm
        ≡ ok (l, behind, bm'))
      × Split current n bm l behind bm'
  allocate_into_free-Split = elim (ℕ_discrete current.length n) [
    | yes e ↦ (
      record current { free = false },
      [],
      bm,
      no_rest e,
      record {
        busy = refl;
        size = e;
        same_place = refl;
        rest = omega arith;
        rest_used = refl;
        rest_free = refl;
        rest_sizes = λ a b. refl;
        valid = v;
        places = λ j. omega arith;
        bytes = λ after addr x. rw add-zero (ground (arith, used_at-below after addr x));
      },
    )
    | no ne ↦
        let (i, bm', e, c) = create_link-Created bm v p in
        (
          _,
          _,
          bm',
          some_rest i bm' ne e,
          record {
            busy = refl;
            size = refl;
            same_place = refl;
            rest = omega arith;
            rest_used = refl;
            rest_free = refl;
            rest_sizes = λ a b. ground arith;
            valid = c.valid;
            places = λ j. omega (arith, c.places j);
            bytes = λ after addr x. ground arith;
          },
        )
  ]
