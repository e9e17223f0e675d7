-- ===== src/Watermark/Runs.antt =====
-- Sequences of calls of the watermark allocator.
use neptun_os.Base.{
  ℕ, suc, ◌+◌, ◌*◌, ◌%◌, ◌≤◌, ◌<◌, ◌≡◌, refl, max, List, [], ◌∷◌, ok, arith, length, ap, ◌∙◌,
}
use mathlib.Core.Path.{subst}
use neptun_os.Bits.{u64_mod}
use neptun_os.Arith.{align}
use neptun_os.Arith.Laws.{align_bounds}
use neptun_os.Watermark.{Watermark, wm_alloc, wm_allocs}
use neptun_os.Watermark.Laws.{Granted, InSpace, place, place-lt, granted}

-- Blocks (start and size) that follow one another without overlap between `lo` and `hi`.
abbrev pub Stacked : ℕ → ℕ → List (ℕ × ℕ) → Type 0
Stacked lo hi [] = lo ≤ hi
Stacked lo hi ((p, n) ∷ blocks) = (lo ≤ p) × Stacked (p + n) hi blocks

-- No request is empty, and all are of at most `most` bytes and alignment.
abbrev pub Bounded : ℕ → List (ℕ × ℕ) → Type 0
Bounded most [] = Unit
Bounded most ((size, alignment) ∷ rest) =
    ((0 < size) × (size ≤ most) × (alignment ≤ most)) × Bounded most rest

-- What the requests may take, gaps included.
unfoldable pub budget : List (ℕ × ℕ) → ℕ
budget [] = 0
budget ((size, alignment) ∷ rest) = size + 16 + max (size + 16) alignment + budget rest

-- What one block of a sequence takes from the area.
step :
    (most : ℕ) (wm : Watermark) (size alignment rest : ℕ)
    → (0 < size) × (size ≤ most) × (alignment ≤ most)
    → wm.cursor + wm.free + 2 * most + 64 < u64_mod
    → size + 16 + max (size + 16) alignment + rest ≤ wm.free
    → (p : ℕ) × (wm' : Watermark) × (wm_alloc wm size alignment ≡ ok (p, wm'))
      × Granted wm size alignment p wm'
      × (rest ≤ wm'.free)
step most wm size alignment rest (pos, small, low) space room =
    let (wm', e, g) = granted wm size alignment inside (omega (arith, rounded, near)) in
    (place wm size alignment, wm', e, g, omega (arith, g.next, g.limit, g.gap, rounded))
  where
    rounded : (align size 16 % 16 ≡ 0) × (size ≤ align size 16) × (align size 16 < size + 16)
    rounded = align_bounds size 16 (omega arith) (omega arith)

    inside : InSpace wm size alignment
    inside = record { positive = pos; round = omega arith; space = omega (arith, rounded) }

    near : place wm size alignment < wm.cursor + max (align size 16) alignment
    near = place-lt wm size alignment inside

-- A sequence of non-empty requests that the area can hold, gaps for alignment included, and that stay
-- inside the address space, is granted in full; the blocks lie one behind the other without overlap
-- between the old and the new cursor, and the end of the area stays in place.
pub wm_allocs-Stacked :
    (most : ℕ) (wm : Watermark) (requests : List (ℕ × ℕ))
    → Bounded most requests
    → wm.cursor + wm.free + 2 * most + 64 < u64_mod
    → budget requests ≤ wm.free
    → (blocks : List (ℕ × ℕ)) × (wm' : Watermark) × (wm_allocs wm requests ≡ ok (blocks, wm'))
      × Stacked wm.cursor wm'.cursor blocks
      × (wm'.cursor + wm'.free ≡ wm.cursor + wm.free)
      × (length blocks ≡ length requests)
unfolding wm_allocs budget
wm_allocs-Stacked most wm [] b space room = ([], wm, refl, omega arith, refl, refl)
wm_allocs-Stacked most wm ((size, alignment) ∷ rest) (b, bs) space room =
    let (p, wm1, e, g, left) = step most wm size alignment (budget rest) b space room in
    let (blocks, wm2, e2, stacked, limit, count) =
      wm_allocs-Stacked most wm1 rest bs (omega (arith, g.limit)) left in
    (
      (p, align size 16) ∷ blocks,
      wm2,
      rw (e, e2),
      (g.after, subst (λ c. Stacked c wm2.cursor blocks) g.next stacked),
      limit ∙ g.limit,
      ap suc count,
    )
