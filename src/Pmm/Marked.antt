-- ===== src/Pmm/Marked.antt =====
-- Which pages `pmm_init` leaves in use.
use neptun_os.Base.{
  ℕ, zero, suc, ◌+◌, ◌-◌, ◌*◌, ◌/◌, ◌%◌, ◌≤◌, ◌<◌, ◌≡◌, refl, ◌∙◌, Bool, true, false, ◌&&◌, List,
  [], ◌∷◌, ok, ◌>>=◌, ◌==◌, if◌then◌else◌, arith, Bool-cases, inl, inr,
}
use mathlib.Core.Path.{subst, sym}
use neptun_os.Bits.{u64_mod}
use neptun_os.Arith.{align, physical_address}
use neptun_os.Bitmap.{Bitmap, set_bit}
use neptun_os.Bitmap.View.{bit, IsValid, Updated, set_bit-Updated}
use neptun_os.Bitmap.Range.{between}
use neptun_os.Pmm.{page_size}
use neptun_os.Pmm.Init.{Entry, usable, wm_size, set_pages, take_entry, take_entries}

set_pages-suc :
    (k base j : ℕ) (val : Bool) (bm : Bitmap)
    → base + j < u64_mod
    → set_pages (suc k) base j val bm
      ≡ (set_bit bm ((base + j) / page_size) val >>= set_pages k base (j + page_size) val)
unfolding set_pages
set_pages-suc k base j val bm h =
    let plain : (base + j) % u64_mod ≡ base + j = omega arith in rw plain refl

-- Setting `k` pages from the one at `base + j` on.
set_pages-Updated :
    (k base j : ℕ) (val : Bool) (bm : Bitmap)
    → IsValid bm
    → (base + j) / page_size + k ≤ bm.sz
    → bm.sz * page_size < u64_mod
    → (bm' : Bitmap) × (set_pages k base j val bm ≡ ok bm')
      × Updated bm bm' (between ((base + j) / page_size) ((base + j) / page_size + k)) val
unfolding set_pages
set_pages-Updated zero base j val bm v inside narrow =
    (bm, refl, record { size = refl; words = refl; bits = λ i. ground arith })
set_pages-Updated (suc k) base j val bm v inside narrow =
    let step = set_pages-suc k base j val bm (omega arith) in
    let next : (base + (j + page_size)) / page_size ≡ (base + j) / page_size + 1 = omega arith in
    let (bm1, e1, u1) = set_bit-Updated bm v ((base + j) / page_size) (omega arith) val in
    let (bm2, e2, u2) =
      set_pages-Updated k base (j + page_size) val bm1 (omega (arith, u1.size, u1.words))
        (omega (arith, u1.size, next)) (omega (arith, u1.size)) in
    (
      bm2,
      step ∙ rw e1 e2,
      record {
        size = omega (arith, u1.size, u2.size);
        words = omega (arith, u1.words, u2.words);
        bits = λ i. ground (arith, u1.bits i, u2.bits i, next);
      },
    )

-- The pages that `pmm_init` takes for those of a usable entry.
abbrev pub covers : Entry → ℕ → Bool
covers e p =
    between (align e.base page_size / page_size)
      (align e.base page_size / page_size + e.length / page_size) p

-- Does some usable entry cover the page?
abbrev pub covered : List Entry → ℕ → Bool
covered [] p = false
covered (e ∷ entries) p = if (e.kind == usable) && covers e p then true else covered entries p

-- The pages of a usable entry lie in the bitmap, and so does what is set aside in it.
pub record Inside (sz bm_size : ℕ) (e : Entry) : Type 0 where
  pub pages : align e.base page_size / page_size + e.length / page_size ≤ sz
  pub aside : (e.base + bm_size + wm_size + (page_size - 1)) / page_size + 1 ≤ sz

abbrev pub AllInside : (sz bm_size : ℕ) → List Entry → Type 0
AllInside sz bm_size [] = Unit
AllInside sz bm_size (e ∷ entries) =
    (e.kind ≡ usable → Inside sz bm_size e) × AllInside sz bm_size entries

-- The bitmap has kept its size, and every page in use that `p` does not hold of is still in use.
pub record Keeps (bm bm' : Bitmap) (p : ℕ → Bool) : Type 0 where
  pub valid : IsValid bm'
  pub size : bm'.sz ≡ bm.sz
  pub kept : (i : ℕ) → p i ≡ false → bit bm i ≡ true → bit bm' i ≡ true

take_entry-Keeps :
    (buffer bm_size : ℕ) (e : Entry) (bm : Bitmap)
    → IsValid bm
    → bm.sz * page_size < u64_mod
    → Inside bm.sz bm_size e
    → (bm' : Bitmap) × (take_entry buffer bm_size e bm ≡ ok bm') × Keeps bm bm' (covers e)
unfolding take_entry
take_entry-Keeps buffer bm_size e bm v narrow inside =
    let (bm1, e1, u1) =
      set_pages-Updated (e.length / page_size) (align e.base page_size) 0 false bm v
        (omega (arith, inside.pages)) narrow in
    let start : (align e.base page_size + 0) / page_size ≡ align e.base page_size / page_size =
      omega arith in
    let first : Keeps bm bm1 (covers e) = record {
      valid = omega (arith, u1.size, u1.words);
      size = u1.size;
      kept = λ i off on. ground (arith, u1.bits i, start);
    } in
    elim (Bool-cases ((e.base + wm_size) % u64_mod == physical_address buffer)) [
      | inl here ↦
          let (bm2, e2, u2) =
            set_pages-Updated ((bm_size + wm_size + (page_size - 1)) / page_size) e.base 0 true bm1
              first.valid (omega (arith, inside.aside, u1.size)) (omega (arith, u1.size)) in
          (
            bm2,
            rw (e1, here) e2,
            record {
              valid = omega (arith, u2.size, u2.words, first.valid);
              size = omega (arith, u2.size, u1.size);
              kept = λ i off on. ground (arith, u2.bits i, first.kept i off on);
            },
          )
      | inr elsewhere ↦ (bm1, rw (e1, elsewhere) refl, first)
    ]

-- Going through a memory map whose usable entries lie in the bitmap never faults, and clears no page that
-- is outside them.
pub take_entries-Keeps :
    (buffer bm_size freemem : ℕ) (entries : List Entry) (bm : Bitmap)
    → IsValid bm
    → bm.sz * page_size < u64_mod
    → AllInside bm.sz bm_size entries
    → (freemem' : ℕ) × (bm' : Bitmap) × (take_entries buffer bm_size freemem entries bm
        ≡ ok (freemem', bm'))
      × Keeps bm bm' (covered entries)
unfolding take_entries
take_entries-Keeps buffer bm_size freemem [] bm v narrow inside =
    (freemem, bm, refl, record { valid = v; size = refl; kept = λ i off on. on })
take_entries-Keeps buffer bm_size freemem (e ∷ entries) bm v narrow (here, others) =
    elim (Bool-cases (e.kind == usable)) [
      | inl taken ↦
          let (bm1, e1, k1) = take_entry-Keeps buffer bm_size e bm v narrow (here (ground arith)) in
          let (f2, bm2, e2, k2) =
            take_entries-Keeps buffer bm_size ((freemem + e.length) % u64_mod) entries bm1 k1.valid
              (omega (arith, k1.size))
              (subst (λ t. AllInside t bm_size entries) (sym k1.size) others) in
          (
            f2,
            bm2,
            rw (taken, e1) e2,
            record {
              valid = k2.valid;
              size = omega (arith, k1.size, k2.size);
              kept =
                  λ i off on. k2.kept i (ground (arith, off)) (k1.kept i (ground (arith, off)) on);
            },
          )
      | inr skipped ↦
          let (f2, bm2, e2, k2) =
            take_entries-Keeps buffer bm_size freemem entries bm v narrow others in
          (
            f2,
            bm2,
            rw skipped e2,
            record {
              valid = k2.valid;
              size = k2.size;
              kept = λ i off on. k2.kept i (ground (arith, off)) on;
            },
          )
    ]
