-- ===== src/Watermark.antt =====
-- The watermark allocator of kernel/src/mm/vmm.cc (`wm_alloc`), which hands out memory before there is
-- a heap, and all page tables. The mutex makes a call atomic; here a call is one step.
pub mod Laws
pub mod Runs
use neptun_os.Base.{
  ℕ, ◌+◌, ◌-◌, ◌%◌, max, List, [], ◌∷◌, Outcome, ok, fatal, ◌>>=◌, ltb, ◌==◌, if◌then◌else◌,
}
use neptun_os.Bits.{u64_mod}
use neptun_os.Arith.{align}

-- `wm_cursor` and `wm_free`
pub record Watermark : Type 0 where
  pub cursor : ℕ
  pub free : ℕ

-- The sums and the difference wrap; the division in `align` faults on 0.
unfoldable pub wm_alloc : Watermark → (size alignment : ℕ) → Outcome (ℕ × Watermark)
wm_alloc wm size alignment =
    let size' = align size 16 in
    let alignment' = max size' alignment in
    let alignfix = (align wm.cursor alignment' + u64_mod - wm.cursor) % u64_mod in
    let p = (wm.cursor + alignfix) % u64_mod in
    let needed = (size' + alignfix) % u64_mod in
    if alignment' == 0
    then fatal
    else if ltb wm.free needed
    then fatal
    else ok (p, record { cursor = (p + size') % u64_mod; free = wm.free - needed })

-- A sequence of calls, given by the size and the alignment of each: the start and the rounded size of
-- each block handed out.
unfoldable pub wm_allocs : Watermark → List (ℕ × ℕ) → Outcome (List (ℕ × ℕ) × Watermark)
unfolding wm_alloc
wm_allocs wm [] = ok ([], wm)
wm_allocs wm ((size, alignment) ∷ rest) = do
  (p, wm') ← wm_alloc wm size alignment
  (blocks, wm'') ← wm_allocs wm' rest
  ok ((p, align size 16) ∷ blocks, wm'')
