-- ===== src/Loader.antt =====
-- The loader of programs, kernel/src/loader/loader.cc: the segments of an executable. `content` is the byte
-- at each offset of the file; the program headers are given as a list. The address space is that of
-- Modules.
pub mod Segments
use neptun_os.Base.{
  ℕ, zero, suc, ◌+◌, ◌-◌, ◌/◌, ◌%◌, Bool, true, false, ◌&&◌, List, [], ◌∷◌, Outcome, ok, fatal,
  ◌>>=◌, leb, ltb, ◌==◌, if◌then◌else◌,
}
use neptun_os.Bits.{u64_mod}
use neptun_os.Modules.{Space, page_size}

-- `Elf64_Phdr`
pub record Phdr : Type 0 where
  pub kind : ℕ
  pub offset : ℕ
  pub vaddr : ℕ
  pub filesz : ℕ
  pub memsz : ℕ

-- `P2M`
abbrev pub large_page_size : ℕ
large_page_size = 0x200000

abbrev pub pt_load : ℕ
pt_load = 1

-- The loop that maps a segment, with the rounds left: `map_page` maps one page of 4 KiB.
unfoldable pub map_segment : ℕ → (at : ℕ) → Space → Space
map_segment zero at m = m
map_segment (suc k) at m =
    map_segment k ((at + large_page_size) % u64_mod)
      (record m { pages = λ p. if p == at / page_size then true else m.pages p })

-- Whether `n` bytes can be written.
unfoldable pub is_writable : (n at : ℕ) → Space → Bool
is_writable zero at m = true
is_writable (suc n) at m = m.pages (at / page_size) && is_writable n (at + 1) m

-- What `memset` and `memcpy` leave.
unfoldable pub fill_segment : (content : ℕ → ℕ) → Phdr → Space → Space
fill_segment content ph m = record m {
  bytes = λ x.
      if leb ph.vaddr x && ltb x (ph.vaddr + ph.filesz)
      then content (ph.offset + (x - ph.vaddr))
      else if leb ph.vaddr x && ltb x (ph.vaddr + ph.memsz)
      then 0
      else m.bytes x;
}

-- `memset` of the whole segment to 0, then `memcpy` of what the file holds; to write where no page is mapped
-- is a fault.
unfoldable pub load_segment : (content : ℕ → ℕ) → Phdr → Space → Outcome Space
load_segment content ph m = elim (ph.kind == pt_load) [
  | false ↦ ok m
  | true ↦
      let m1 = map_segment ((ph.memsz + (large_page_size - 1)) / large_page_size) ph.vaddr m in
      elim (is_writable ph.memsz ph.vaddr m1 && is_writable ph.filesz ph.vaddr m1) [
        | false ↦ fatal
        | true ↦ ok (fill_segment content ph m1)
      ]
]

-- The loop over the program headers.
unfoldable pub load_segments : (content : ℕ → ℕ) → List Phdr → Space → Outcome Space
load_segments content [] m = ok m
load_segments content (ph ∷ phs) m = load_segment content ph m >>= load_segments content phs
