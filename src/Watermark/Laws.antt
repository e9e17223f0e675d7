-- ===== src/Watermark/Laws.antt =====
-- One call of the watermark allocator.
use neptun_os.Base.{ℕ, ◌+◌, ◌-◌, ◌%◌, ◌≤◌, ◌<◌, ◌≡◌, refl, max, ok, fatal, arith, inl, inr, ◌⊎◌}
use native.Mathlib.Decide.{dec_lt}
use neptun_os.Bits.{u64_mod}
use neptun_os.Arith.{align}
use neptun_os.Arith.Laws.{align_bounds}
use neptun_os.Watermark.{Watermark, wm_alloc}

-- The block at `p` and the state after: the block is aligned to the request and to its own size, it lies
-- between the old cursor and the new one, and the end of the area stays where it is.
pub record Granted (wm : Watermark) (size alignment p : ℕ) (wm' : Watermark) : Type 0 where
  pub aligned : p % max (align size 16) alignment ≡ 0
  pub fits : size ≤ align size 16
  pub after : wm.cursor ≤ p
  pub gap : p < wm.cursor + max (align size 16) alignment
  pub next : wm'.cursor ≡ p + align size 16
  pub limit : wm'.cursor + wm'.free ≡ wm.cursor + wm.free

-- The area and one request stay inside the 64-bit address space.
pub record InSpace (wm : Watermark) (size alignment : ℕ) : Type 0 where
  pub positive : 0 < size
  pub round : size + 16 ≤ u64_mod
  pub space : wm.cursor + wm.free + max (align size 16) alignment + align size 16 < u64_mod

-- where the next block would start
pub place : Watermark → ℕ → ℕ → ℕ
place wm size alignment = align wm.cursor (max (align size 16) alignment)

module _ (wm : Watermark) (size alignment : ℕ) (s : InSpace wm size alignment) where
  size' : ℕ
  size' = align size 16

  alignment' : ℕ
  unfolding size'
  alignment' = max size' alignment

  rounded : (size ≤ size') × (size' < size + 16)
  unfolding size'
  rounded = omega (arith, align_bounds size 16 (omega arith) s.round)

  placed :
      (place wm size alignment % alignment' ≡ 0)
      × (wm.cursor ≤ place wm size alignment)
      × (place wm size alignment < wm.cursor + alignment')
  unfolding place alignment' size'
  placed = align_bounds wm.cursor _ (omega (arith, rounded, s.positive)) (omega (arith, s.space))

  -- the values that `wm_alloc` computes do not wrap
  fix : ℕ
  unfolding alignment'
  fix = (align wm.cursor alignment' + u64_mod - wm.cursor) % u64_mod

  fix-add : wm.cursor + fix ≡ place wm size alignment
  unfolding fix alignment' size' place
  fix-add = omega (arith, placed, s.space)

  pub place-lt : place wm size alignment < wm.cursor + max (align size 16) alignment
  unfolding alignment' size'
  place-lt = placed.2

  pub granted :
      place wm size alignment + align size 16 ≤ wm.cursor + wm.free
      → (wm' : Watermark) × (wm_alloc wm size alignment ≡ ok (place wm size alignment, wm'))
        × Granted wm size alignment (place wm size alignment) wm'
  unfolding wm_alloc place size' alignment' fix
  granted room = (
    record {
      cursor = place wm size alignment + size';
      free = wm.cursor + wm.free - (place wm size alignment + size');
    },
    ground (arith, fix-add, rounded, placed, s.positive, s.space),
    record {
      aligned = placed.0;
      fits = rounded.0;
      after = placed.1;
      gap = placed.2;
      next = refl;
      limit = omega arith;
    },
  )

  refused :
      wm.cursor + wm.free < place wm size alignment + size' → wm_alloc wm size alignment ≡ fatal
  unfolding wm_alloc place size' alignment' fix
  refused short = ground (arith, fix-add, rounded, placed, s.positive, s.space)

  -- For a non-empty request inside the address space the watermark allocator is fatal when the aligned
  -- block does not fit in front of the end of the area, and otherwise grants the next aligned block.
  pub wm_alloc_lem :
      (wm.cursor + wm.free < place wm size alignment + align size 16)
        × (wm_alloc wm size alignment ≡ fatal)
      ⊎ (wm' : Watermark) × (wm_alloc wm size alignment ≡ ok (place wm size alignment, wm'))
        × Granted wm size alignment (place wm size alignment) wm'
  unfolding size'
  wm_alloc_lem = elim (dec_lt (wm.cursor + wm.free) (place wm size alignment + size')) [
    | yes short ↦ inl (short, refused short)
    | no room ↦ inr (granted (omega arith))
  ]
