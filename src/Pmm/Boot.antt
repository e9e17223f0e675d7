-- ===== src/Pmm/Boot.antt =====
-- `pmm_init` on a memory map in order.
use mathlib.Core.Path.{subst, sym}
use neptun_os.Base.{
  ℕ, ◌+◌, ◌*◌, ◌/◌, ◌%◌, ◌≤◌, ◌<◌, ◌≡◌, refl, true, false, some, List, ok, arith, length,
}
use neptun_os.Bits.{u64_mod}
use neptun_os.Arith.{align, align_down, virtual_address}
use neptun_os.Bitmap.View.{bit, IsValid, set_bit-Updated}
use neptun_os.Bitmap.Init.{init_lem}
use neptun_os.Watermark.{Watermark}
use neptun_os.Pmm.{Pmm, page_size}
use neptun_os.Pmm.Init.{Entry, wm_size, last_entry, candidate, pmm_init}
use neptun_os.Pmm.Marked.{covered, AllInside, take_entries-Keeps}

-- the pages up to the end of the last entry
abbrev pub pages_upto : Entry → ℕ
pages_upto last = align ((last.base + last.length) % u64_mod) page_size / page_size

-- where the words of the bitmap lie
abbrev pub bitmap_buffer : Entry → ℕ
bitmap_buffer e = virtual_address ((e.base + wm_size) % u64_mod)

pages_upto-narrow : (last : Entry) → pages_upto last * page_size < u64_mod
unfolding align
pages_upto-narrow last = omega arith

-- What `pmm_init` sets up: page 0 and every page that no usable entry covers are in use, and the
-- watermark allocator has its area at the start of the entry `e`.
pub record Booted (entries : List Entry) (sz : ℕ) (e : Entry) (pmm : Pmm) (wm : Watermark)
    : Type 0 where
  pub valid : IsValid pmm.bm
  pub size : pmm.bm.sz ≡ sz
  pub null_page : bit pmm.bm 0 ≡ true
  pub marked : (p : ℕ) → p < sz → covered entries p ≡ false → bit pmm.bm p ≡ true
  pub unlocked : pmm.locked ≡ false
  pub cursor : wm.cursor ≡ virtual_address e.base
  pub free : wm.free ≡ wm_size

-- On a memory map of at least 64 pages with an entry that has room for the watermark area and the
-- bitmap, and whose usable entries lie in the bitmap, pmm_init never faults; page 0 and every page
-- outside the usable entries are in use, and the watermark allocator gets its area at the start of that
-- entry.
pub pmm_init-Booted :
    (memory : ℕ → List ℕ) (entries : List Entry) (last e : Entry)
    → last_entry entries ≡ ok last
    → candidate (pages_upto last / 8) entries ≡ some e
    → 64 ≤ pages_upto last
    → align_down (pages_upto last) 64 ≤ 64 * length (memory (bitmap_buffer e))
    → AllInside (align_down (pages_upto last) 64) (pages_upto last) entries
    → (pmm : Pmm) × (wm : Watermark) × (pmm_init memory entries ≡ ok (pmm, wm))
      × Booted entries (align_down (pages_upto last) 64) e pmm wm
unfolding pmm_init
pmm_init-Booted memory entries last e el ec many long inside =
    let down : (align_down (pages_upto last) 64 ≤ pages_upto last)
        × (64 ≤ align_down (pages_upto last) 64) =
      unfold align_down in omega arith in
    let (bm, e0, sz, v, set) = init_lem (memory (bitmap_buffer e)) (pages_upto last) true long in
    let (f, bm1, e1, k) =
      take_entries-Keeps (bitmap_buffer e) (pages_upto last) 0 entries bm v
        (omega (arith, pages_upto-narrow last, sz, down))
        (subst (λ t. AllInside t (pages_upto last) entries) (sym sz) inside) in
    let (bm2, e2, u) = set_bit-Updated bm1 k.valid 0 (omega (arith, k.size, sz, down)) true in
    (
      record { usedmem = 0; freemem = f; bm = bm2; locked = false },
      record { cursor = virtual_address e.base; free = wm_size },
      rw (el, ec, e0, e1, e2) refl,
      record {
        valid = omega (arith, u.size, u.words, k.valid);
        size = omega (arith, u.size, k.size, sz);
        null_page = u.bits 0;
        marked = λ p below off. ground (arith, u.bits p, k.kept p off (set p (omega (arith, sz))));
        unlocked = refl;
        cursor = refl;
        free = refl;
      },
    )
