-- ===== src/Console/Glyphs.antt =====
-- The pixels of a glyph: kernel/src/gfx/console.cc, con_putc.
use native.Mathlib.Nat.{pow-suc}
use neptun_os.Base.{
  ℕ, zero, suc, ◌+◌, ◌-◌, ◌/◌, ◌^◌, ◌≤◌, ◌<◌, ◌≡◌, refl, ap, ◌∙◌, true, false, not, bit_and, ltb,
  ◌==◌, get_elem?, some, arith,
}
use neptun_os.Bits.{testbit, bit_at-pow, bit_and-bit_at}
use neptun_os.Bits.Fields.{bit_and_mask}
use neptun_os.Console.{pixels_from, row_pixels}

pixel : (row k : ℕ) → k < 64 → not (bit_and row (2 ^ k) == 0) ≡ testbit row k
pixel row k h = rw (← bit_at-pow k h) (bit_and-bit_at row k h)

pixels_from_lem :
    (n k row i : ℕ)
    → i < n
    → n ≤ k + 1
    → k < 64
    → get_elem? (pixels_from n row (2 ^ k)) i ≡ some (testbit row (k - i))
unfolding pixels_from
pixels_from_lem zero k row i h room small = absurd (omega arith)
pixels_from_lem (suc n) k row zero h room small =
    let all : k - 0 ≡ k = omega arith in ap some (pixel row k small ∙ rw all refl)
pixels_from_lem (suc n) zero row (suc i) h room small = absurd (omega arith)
pixels_from_lem (suc n) (suc k) row (suc i) h room small =
    let half : 2 ^ suc k / 2 ≡ 2 ^ k = omega (arith, pow-suc 2 k) in
    let same : suc k - suc i ≡ k - i = omega arith in
    rw (half, same) (pixels_from_lem n k row i (omega arith) (omega arith) (omega arith))

-- In a font of 8 pixels or fewer, pixel `i` of a row shows bit 8 - i of its byte, so the first pixel is
-- never set and bit 0 is not shown.
pub row_pixels-narrow :
    (glyphw row i : ℕ)
    → glyphw ≤ 8
    → i < glyphw
    → get_elem? (row_pixels glyphw row) i ≡ some (testbit row (8 - i))
unfolding row_pixels
row_pixels-narrow glyphw row i narrow inside =
    let test : ltb 8 glyphw ≡ false = ground arith in
    rw test (pixels_from_lem glyphw 8 row i inside (omega arith) (omega arith))

pixels_from_zero : (n row i : ℕ) → i < n → get_elem? (pixels_from n row 0) i ≡ some false
unfolding pixels_from
pixels_from_zero zero row i h = absurd (omega arith)
pixels_from_zero (suc n) row zero h = rw (bit_and_mask 0 row) (ground arith)
pixels_from_zero (suc n) row (suc i) h = pixels_from_zero n row i (omega arith)

-- In a wider font no pixel is ever set: 1 << 16 does not fit the mask.
pub row_pixels-wide :
    (glyphw row i : ℕ) → 8 < glyphw → i < glyphw → get_elem? (row_pixels glyphw row) i ≡ some false
unfolding row_pixels
row_pixels-wide glyphw row i wide inside =
    let test : ltb 8 glyphw ≡ true = ground arith in rw test (pixels_from_zero glyphw row i inside)
