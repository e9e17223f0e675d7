-- ===== src/Heap/Layout.antt =====
-- When a heap is well formed, and what taking and giving back a link does to the pool of links.
use neptun_os.Base.{
  ℕ, ◌+◌, ◌%◌, ◌<◌, ◌≡◌, refl, false, ◌&&◌, some, Option, List, [], ◌∷◌, Outcome, ok, arith, ltb,
  ◌==◌, if◌then◌else◌,
}
use neptun_os.Bits.{u64_mod}
use neptun_os.Bitmap
use neptun_os.Bitmap.{Bitmap}
use neptun_os.Bitmap.View.{bit, Updated, set_bit-Updated}
use neptun_os.Bitmap.Alloc.{Search, claimed, exhausted, find_and_set-Search}
use neptun_os.Heap.{Link, Heap}
use neptun_os.Heap.Links.{create_link, delete_link}
use neptun_os.Heap.Sums.{sum_of, total}

-- What a link counts for: bytes in use, free bytes, a size that is no positive multiple of 16, and
-- its place in the pool.
abbrev pub used_bytes : Link → ℕ
used_bytes l = if l.free then 0 else l.length

abbrev pub free_bytes : Link → ℕ
free_bytes l = if l.free then l.length else 0

abbrev pub odd_size : Link → ℕ
odd_size l = if ltb 0 l.length && (l.length % 16 == 0) then 0 else 1

abbrev pub at_place : ℕ → Link → ℕ
at_place i l = if l.index == i then 1 else 0

-- 1 where the pool has place `i` marked as taken
abbrev pub taken : Bitmap → ℕ → ℕ
taken bm i = if ltb i bm.sz && bit bm i then 1 else 0

-- Every place of the pool that is marked is held by exactly one link of the chain, and no other is held.
pub record OwnsPool (links : List Link) (bm : Bitmap) : Type 0 where
  pub valid : Bitmap.View.IsValid bm
  pub owned : (i : ℕ) → sum_of (at_place i) links ≡ taken bm i

-- Well formed: the pool is owned, each link describes a positive multiple of 16 bytes, the heap lies
-- inside the address space, and the two counters are the sums over the links.
pub record IsValid (h : Heap) : Type 0 where
  pub pool : OwnsPool h.links h.bm
  pub sizes : sum_of odd_size h.links ≡ 0
  pub space : h.heap_base + total h.links < u64_mod
  pub used : h.usedmem ≡ sum_of used_bytes h.links
  pub unused : h.freemem ≡ sum_of free_bytes h.links

pub total-split :
    (links : List Link) → total links ≡ sum_of used_bytes links + sum_of free_bytes links
total-split [] = refl
total-split (l ∷ links) = ground (arith, total-split links)

-- Some place of the pool is not taken.
pub record HasPlace (bm : Bitmap) : Type 0 where
  pub place : ℕ
  pub inside : place < bm.sz
  pub clear : bit bm place ≡ false

-- A new link gets a place that was not taken.
pub record Created (bm : Bitmap) (i : ℕ) (bm' : Bitmap) : Type 0 where
  pub valid : Bitmap.View.IsValid bm'
  pub fresh : taken bm i ≡ 0
  pub places : (j : ℕ) → taken bm' j ≡ taken bm j + (if i == j then 1 else 0)

created :
    (bm : Bitmap) {r : Outcome (Option ℕ × Bitmap)}
    → Bitmap.View.IsValid bm
    → HasPlace bm
    → Search bm 1 0 r
    → (i : ℕ) × (bm' : Bitmap) × (r ≡ ok (some i, bm')) × Created bm i bm'
created bm v p (claimed {c} {bm'} fits side free u first) = (
  c,
  bm',
  refl,
  record {
    valid = omega (arith, u.size, u.words);
    fresh = ground (arith, free c);
    places = λ j. ground (arith, u.bits j, u.size, free c);
  },
)
created bm v p (exhausted nothing _) = absurd (
    nothing p.place (omega arith) (omega (arith, p.inside))
      λ i low high. let e : p.place ≡ i = omega arith in rw (← e) p.clear)

pub create_link-Created :
    (bm : Bitmap)
    → Bitmap.View.IsValid bm
    → HasPlace bm
    → (i : ℕ) × (bm' : Bitmap) × (create_link bm ≡ ok (i, bm')) × Created bm i bm'
unfolding create_link
create_link-Created bm v p =
    let (i, bm', e, c) = created bm v p (find_and_set-Search bm 0 v) in
    (i, bm', ground (arith, e), c)

-- A deleted link gives back its place.
pub record Deleted (l : Link) (bm bm' : Bitmap) : Type 0 where
  pub valid : Bitmap.View.IsValid bm'
  pub places : (j : ℕ) → taken bm' j + at_place j l ≡ taken bm j

pub delete_link-Deleted :
    (l : Link) (bm : Bitmap)
    → Bitmap.View.IsValid bm
    → taken bm l.index ≡ 1
    → (bm' : Bitmap) × (delete_link l bm ≡ ok bm') × Deleted l bm bm'
unfolding delete_link
delete_link-Deleted l bm v held =
    let (bm', e, u) = set_bit-Updated bm v l.index (ground arith) false in
    (
      bm',
      e,
      record {
        valid = omega (arith, u.size, u.words);
        places = λ j. ground (arith, u.bits j, u.size);
      },
    )
