-- ===== src/Loader/Segments.antt =====
-- Which segments can be loaded: kernel/src/loader/loader.cc.
use neptun_os.Base.{
  ℕ, zero, suc, ◌+◌, ◌-◌, ◌*◌, ◌/◌, ◌%◌, ◌≤◌, ◌<◌, ◌≡◌, refl, ap, inl, inr, true, ok, leb, ltb,
  ◌==◌, if◌then◌else◌, Bool-cases, arith,
}
use neptun_os.Bits.{u64_mod}
use neptun_os.Modules.{Space, page_size}
use neptun_os.Loader.{
  Phdr, large_page_size, pt_load, map_segment, is_writable, fill_segment, load_segment,
}

map_segment-keeps :
    (k at : ℕ) (m : Space) (p : ℕ) → m.pages p ≡ true → (map_segment k at m).pages p ≡ true
unfolding map_segment
map_segment-keeps zero at m p h = h
map_segment-keeps (suc k) at m p h =
    map_segment-keeps k ((at + large_page_size) % u64_mod) _ p
      (elim (Bool-cases (p == at / page_size)) [ inl same ↦ rw same refl | inr other ↦ rw other h ])

-- All bytes lie in one page.
is_writable-page :
    (n at : ℕ) (m : Space) (p : ℕ)
    → m.pages p ≡ true
    → p * page_size ≤ at
    → at + n ≤ p * page_size + page_size
    → is_writable n at m ≡ true
unfolding is_writable
is_writable-page zero at m p mapped low high = refl
is_writable-page (suc n) at m p mapped low high =
    let page : at / page_size ≡ p = omega (arith, low, high) in
    rw (page, mapped)
      (is_writable-page n (at + 1) m p mapped (omega (arith, low)) (omega (arith, high)))

map_segment-first :
    (k at : ℕ) (m : Space) → (map_segment (suc k) at m).pages (at / page_size) ≡ true
unfolding map_segment
map_segment-first k at m =
    map_segment-keeps k ((at + large_page_size) % u64_mod) _ (at / page_size)
      (let same : (at / page_size == at / page_size) ≡ true = ground arith in rw same refl)

-- The bytes of a segment in memory: those of the file, then zeros.
abbrev pub segment_byte : (content : ℕ → ℕ) → Phdr → (i : ℕ) → ℕ
segment_byte content ph i = if ltb i ph.filesz then content (ph.offset + i) else 0

fill_segment-byte :
    (content : ℕ → ℕ) (ph : Phdr) (m : Space) (i : ℕ)
    → i < ph.memsz
    → (fill_segment content ph m).bytes (ph.vaddr + i) ≡ segment_byte content ph i
unfolding fill_segment
fill_segment-byte content ph m i h =
    let low : leb ph.vaddr (ph.vaddr + i) ≡ true = ground arith in
    let high : ltb (ph.vaddr + i) (ph.vaddr + ph.memsz) ≡ true = ground (arith, h) in
    let test : ltb (ph.vaddr + i) (ph.vaddr + ph.filesz) ≡ ltb i ph.filesz = ground arith in
    let index : ph.vaddr + i - ph.vaddr ≡ i = omega arith in rw (low, test, high, index) refl

-- A segment that lies in one page is loaded: its bytes are those of the file, then zeros.
pub load_segment-page :
    (content : ℕ → ℕ) (ph : Phdr) (m : Space)
    → ph.kind ≡ pt_load
    → 0 < ph.memsz
    → ph.filesz ≤ ph.memsz
    → ph.vaddr % page_size + ph.memsz ≤ page_size
    → (m' : Space) × (load_segment content ph m ≡ ok m')
      × ((i : ℕ) → i < ph.memsz → m'.bytes (ph.vaddr + i) ≡ segment_byte content ph i)
unfolding load_segment
load_segment-page content ph m load some_bytes file within =
    let loads : (ph.kind == pt_load) ≡ true = ground (arith, load) in
    let one : (ph.memsz + (large_page_size - 1)) / large_page_size ≡ 1 = omega arith in
    let m1 = map_segment 1 ph.vaddr m in
    let mapped = map_segment-first 0 ph.vaddr m in
    let whole =
      is_writable-page ph.memsz ph.vaddr m1 (ph.vaddr / page_size) mapped (omega arith)
        (omega (arith, within)) in
    let part =
      is_writable-page ph.filesz ph.vaddr m1 (ph.vaddr / page_size) mapped (omega arith)
        (omega (arith, within, file)) in
    (
      fill_segment content ph m1,
      rw (loads, load_segment, one)
          (rw (whole, part)
            (ap (λ k. ok (fill_segment content ph (map_segment k ph.vaddr m))) one)),
      fill_segment-byte content ph m1,
    )
