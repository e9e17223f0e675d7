-- ===== src/Pmm/Laws.antt =====
-- What `pmm_alloc` and `pmm_alloc4g` hand out.
use neptun_os.Base.{
  ℕ, ◌+◌, ◌-◌, ◌*◌, ◌/◌, ◌%◌, ◌^◌, ◌≤◌, ◌<◌, ◌≡◌, ◌⊎◌, refl, true, false, Option, none, some,
  Outcome, ok, fatal, arith, ◌∙◌, ◌>>=◌,
}
use mathlib.Core.Path.{subst₂}
use native.Mathlib.Decide.{dec_lt}
use neptun_os.Bits.{u64_mod}
use neptun_os.Arith.{align, virtual_address, higher_half}
use neptun_os.Arith.Laws.{align_bounds, virtual_address-add}
use neptun_os.Bitmap.{Bitmap}
use neptun_os.Bitmap.View.{bit, IsValid, Updated}
use neptun_os.Bitmap.Range.{Free, between}
use neptun_os.Bitmap.Alloc.{Search, claimed, exhausted, find_and_set_multiple-Search}
use neptun_os.Pmm.{Pmm, page_size, alloc_from, pmm_alloc, pmm_alloc4g}

-- pmm_alloc returns the same as pmm_alloc4g for every size and state, since the index from which it is
-- to search is 0.
pub pmm_alloc-eq-pmm_alloc4g : (size : ℕ) (pmm : Pmm) → pmm_alloc size pmm ≡ pmm_alloc4g size pmm
unfolding pmm_alloc pmm_alloc4g
pmm_alloc-eq-pmm_alloc4g size pmm = refl

-- the pages that `size` bytes take
unfoldable pub pages : ℕ → ℕ
pages size = (size + 4095) / 4096

-- The lock is free, the bitmap is valid and describes at most 2 ^ 47 bytes, and the counters together
-- count at most 2 ^ 63 bytes.
pub record IsReady (pmm : Pmm) : Type 0 where
  pub unlocked : pmm.locked ≡ false
  pub valid : IsValid pmm.bm
  pub lower_half : pmm.bm.sz * page_size ≤ 2 ^ 47
  pub counted : pmm.usedmem + pmm.freemem ≤ 2 ^ 63

-- An allocation of `n` pages that is granted: the first run of `n` free pages, from page `start` on, is
-- now in use, no other page has changed, the result is its address in the higher half, and both
-- counters follow.
pub record Grant (pmm : Pmm) (n p : ℕ) (pmm' : Pmm) : Type 0 where
  pub start : ℕ
  pub address : p ≡ higher_half + start * page_size
  pub fits : start + n ≤ pmm.bm.sz
  pub was_free : Free pmm.bm start n
  pub first : (d : ℕ) → d + n ≤ pmm.bm.sz → Free pmm.bm d n → start ≤ d
  pub updated : Updated pmm.bm pmm'.bm (between start (start + n)) true
  pub used : pmm'.usedmem ≡ pmm.usedmem + n * page_size
  pub left : n * page_size ≤ pmm.freemem → pmm'.freemem + n * page_size ≡ pmm.freemem
  pub unlocked : pmm'.locked ≡ false

-- What an allocation of `n` pages may end in: a grant; or there is no run of `n` free pages, and the
-- kernel stops.
pub data Allocated (pmm : Pmm) (n : ℕ) : Outcome (ℕ × Pmm) → Type 0 where
  allocated : {p : ℕ} {pmm' : Pmm} → Grant pmm n p pmm' → Allocated pmm n (ok (p, pmm'))
  out_of_memory : ((d : ℕ) → d + n ≤ pmm.bm.sz → ¬ Free pmm.bm d n) → Allocated pmm n fatal

module _ (pmm : Pmm) (ready : IsReady pmm) (size : ℕ) (pos : 0 < size) (small : size ≤ 2 ^ 47) where
  rounded : align size page_size ≡ pages size * page_size
  unfolding pages
  rounded = omega (arith, align_bounds size page_size (omega arith) (omega arith))

  whole_pages : align size page_size / page_size ≡ pages size
  whole_pages = omega (arith, rounded)

  address :
      (c : ℕ)
      → c + pages size ≤ pmm.bm.sz
      → virtual_address (c * page_size % u64_mod) ≡ higher_half + c * page_size
  unfolding pages
  address c fits =
      let low : c * page_size < 2 ^ 47 = omega (arith, ready.lower_half) in
      let plain : c * page_size % u64_mod ≡ c * page_size = omega arith in
      rw plain (virtual_address-add (c * page_size) low ∙ omega arith)

  finish :
      {r : Outcome (Option ℕ × Bitmap)}
      → Search pmm.bm (pages size) 0 r
      → Allocated pmm (pages size) (
          r >>= λ (bit, bm'). elim bit [
            | none ↦ fatal
            | some c ↦ ok (
              virtual_address (c * page_size % u64_mod),
              record {
                usedmem = (pmm.usedmem + align size page_size) % u64_mod;
                freemem = (pmm.freemem + u64_mod - align size page_size) % u64_mod;
                bm = bm';
                locked = false;
              },
            )
          ])
  finish (claimed {c} fits side free u first) = allocated (record {
    start = c;
    address = address c fits;
    fits = fits;
    was_free = free;
    first = λ d p f. (first d (omega arith) p f).1;
    updated = u;
    used =
        omega
          (arith, rounded, align_bounds size page_size (omega arith) (omega arith), ready.counted);
    left = λ room. omega (arith, rounded, ready.counted);
    unlocked = refl;
  })
  finish (exhausted nothing _) = out_of_memory (λ d p. nothing d (omega arith) p)

  -- For a size from 1 to 2^47 a ready page allocator either grants the first run of enough free pages,
  -- which it marks and counts and whose higher-half address it returns, or is fatal when there is no
  -- such run.
  pub pmm_alloc4g-Allocated : Allocated pmm (pages size) (pmm_alloc4g size pmm)
  unfolding pmm_alloc4g alloc_from
  pmm_alloc4g-Allocated =
      simp (ready.unlocked, whole_pages)
        (finish (find_and_set_multiple-Search pmm.bm (pages size) 0 ready.valid positive))
    where
      positive : 0 < pages size
      positive = unfold pages in omega arith

grant :
    {pmm : Pmm} {n : ℕ} {r : Outcome (ℕ × Pmm)} (p : ℕ) (pmm' : Pmm)
    → Allocated pmm n r
    → r ≡ ok (p, pmm')
    → Grant pmm n p pmm'
grant {pmm} {n} p pmm' (allocated {p = q} {pmm' = other} g) e =
    subst₂ (λ q other. Grant pmm n q other) (cc) (cc) g
grant p pmm' (out_of_memory nothing) e = cc

-- An allocation of 1 to 2^47 bytes that succeeds and is covered by the counted free memory leaves a
-- ready page allocator ready for the next one.
pub pmm_alloc4g-IsReady :
    (pmm : Pmm) (size p : ℕ) (pmm' : Pmm)
    → IsReady pmm
    → 0 < size
    → size ≤ 2 ^ 47
    → pages size * page_size ≤ pmm.freemem
    → pmm_alloc4g size pmm ≡ ok (p, pmm')
    → IsReady pmm'
pmm_alloc4g-IsReady pmm size p pmm' ready pos small room e =
    let g = grant p pmm' (pmm_alloc4g-Allocated pmm ready size pos small) e in
    record {
      unlocked = g.unlocked;
      valid = omega (arith, g.updated.size, g.updated.words, ready.valid);
      lower_half = omega (arith, g.updated.size, ready.lower_half);
      counted = omega (arith, g.used, g.left room, ready.counted);
    }

-- Grants in a row share no page.
apart :
    {pmm pmm' pmm'' : Pmm} {n n' p p' : ℕ}
    → 0 < n
    → 0 < n'
    → (g : Grant pmm n p pmm') (g' : Grant pmm' n' p' pmm'')
    → (g.start + n ≤ g'.start) ⊎ (g'.start + n' ≤ g.start)
apart {n} {n'} pos pos' g g' = elim (dec_lt g.start g'.start) [
  | yes before ↦ ground (arith, g.updated.bits g'.start, g'.was_free g'.start)
  | no behind ↦ ground (arith, g.updated.bits g.start, g'.was_free g.start)
]

-- Two allocations in a row that succeed, from a ready page allocator, of positive sizes of at most 2^47
-- together, the first covered by the counted free memory, never overlap.
pub pmm_alloc4g-disjoint :
    (pmm : Pmm) (size size' p p' : ℕ) (pmm' pmm'' : Pmm)
    → IsReady pmm
    → 0 < size
    → 0 < size'
    → size + size' ≤ 2 ^ 47
    → pages size * page_size ≤ pmm.freemem
    → pmm_alloc4g size pmm ≡ ok (p, pmm')
    → pmm_alloc4g size' pmm' ≡ ok (p', pmm'')
    → (p + size ≤ p') ⊎ (p' + size' ≤ p)
pmm_alloc4g-disjoint pmm size size' p p' pmm' pmm'' ready pos pos' small room e e' =
    unfold pages in omega (arith, apart (omega arith) (omega arith) g g', g.address, g'.address)
  where
    ready' : IsReady pmm'
    ready' = pmm_alloc4g-IsReady pmm size p pmm' ready pos (omega arith) room e

    g : Grant pmm (pages size) p pmm'
    g = grant p pmm' (pmm_alloc4g-Allocated pmm ready size pos (omega arith)) e

    g' : Grant pmm' (pages size') p' pmm''
    g' = grant p' pmm'' (pmm_alloc4g-Allocated pmm' ready' size' pos' (omega arith)) e'
