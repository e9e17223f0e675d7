-- ===== src/Modules.antt =====
-- The loader of kernel modules, kernel/src/devmgr/module.cc. The tables of the object file are given as
-- lists: `content` is the byte at each offset of the file, and the names are the strings that the tables
-- point to. Page tables are the set of the pages of 4 KiB that they map and the set of the tables
-- themselves; a page that is mapped is a new one. Memory for both is counted: `frames` are the pages that
-- pmm_alloc has left, and `table_room` the tables that wm_alloc has room for. Without it a call is fatal.
pub mod Pages
pub mod Load
pub mod Link
use neptun_os.Base.{
  ℕ, zero, suc, ◌+◌, ◌-◌, ◌*◌, ◌/◌, ◌%◌, ◌^◌, Bool, true, false, ◌&&◌, ◌||◌, not, Option, none,
  some, List, [], ◌∷◌, ◌++◌, Outcome, ok, fatal, ◌>>=◌, leb, ltb, ◌==◌, if◌then◌else◌, get_elem?,
}
use neptun_os.Bits.{u64_mod}
use neptun_os.Arith.{align, gibs2bytes}
use neptun_os.Bitmap.{Bitmap, find_and_set}
use neptun_os.Text.{Bytes, strcmp}

-- `Elf64_Shdr`
pub record Section : Type 0 where
  pub name : Bytes
  pub kind : ℕ
  pub flags : ℕ
  pub addr : ℕ
  pub offset : ℕ
  pub size : ℕ
  pub info : ℕ

-- `Elf64_Sym`
pub record Symbol : Type 0 where
  pub name : Bytes
  pub info : ℕ
  pub shndx : ℕ
  pub value : ℕ

-- `Elf64_Rela`
pub record Rela : Type 0 where
  pub offset : ℕ
  pub symbol : ℕ
  pub kind : ℕ
  pub addend : ℕ

abbrev pub page_size : ℕ
page_size = 0x1000

abbrev pub modules_base : ℕ
modules_base = 0xfffffff000000000

-- The pages that are mapped and the bytes that they hold; the tables below the first one, by their level and
-- the number of the first page under them; and the memory that is left for both.
pub record Space : Type 0 where
  pub pages : ℕ → Bool
  pub bytes : ℕ → ℕ
  pub tables : (level index : ℕ) → Bool
  pub frames : ℕ
  pub table_room : ℕ

-- `(sh_flags & SHF_ALLOC) && sh_size`
unfoldable pub is_loaded : Section → Bool
is_loaded s = s.flags / 2 % 2 == 1 && not (s.size == 0)

-- A level of `map_page`: the table that an entry leads to is made if there is none.
unfoldable pub ensure_table : (level index : ℕ) → Space → Outcome Space
ensure_table level index m = elim (m.tables level index) [
  | true ↦ ok m
  | false ↦ elim (m.table_room == 0) [
    | true ↦ fatal
    | false ↦ ok (record m {
      tables = λ l i. if l == level && i == index then true else m.tables l i;
      table_room = m.table_room - 1;
    })
  ]
]

-- `map_page(..., pmm_alloc(PMM_PAGESIZE), ...)`: the page is allocated first.
unfoldable pub map_new_page : (page : ℕ) → Space → Outcome Space
unfolding ensure_table
map_new_page page m = elim (m.frames == 0) [
  | true ↦ fatal
  | false ↦ do
    m1 ← ensure_table 3 (page / 512 / 512 / 512) (record m { frames = m.frames - 1 })
    m2 ← ensure_table 2 (page / 512 / 512) m1
    m3 ← ensure_table 1 (page / 512) m2
    ok (record m3 { pages = λ p. if p == page then true else m3.pages p })
]

-- The loop over the pages of a section, with the rounds left. A page that is mapped is passed by.
unfoldable pub map_pages : ℕ → (at : ℕ) → Space → Outcome Space
unfolding map_new_page
map_pages zero at m = ok m
map_pages (suc k) at m = elim (m.pages (at / page_size)) [
  | true ↦ map_pages k (at + page_size) m
  | false ↦ map_new_page (at / page_size) m >>= map_pages k (at + page_size)
]

-- `memset` to 0 or `memcpy` out of the file
unfoldable pub fill_section : (content : ℕ → ℕ) → Section → (at : ℕ) → Space → Space
fill_section content s at m = record m {
  bytes = λ x.
      if leb at x && ltb x (at + s.size)
      then if s.kind == 8 then 0 else content (s.offset + (x - at))
      else m.bytes x;
}

-- The loop over the sections, from `sectionbase` on: the sections with their addresses, and the memory.
-- The loop over the pages counts in a u32.
unfoldable pub load_sections :
    (content : ℕ → ℕ) → List Section → (sectionbase : ℕ) → Space → Outcome (List Section × Space)
load_sections content [] sectionbase m = ok ([], m)
load_sections content (s ∷ ss) sectionbase m = elim (is_loaded s) [
  | false ↦ load_sections content ss sectionbase m >>= λ (ss', m'). ok (s ∷ ss', m')
  | true ↦
      if leb (2 ^ 32) (align s.size page_size + page_size)
      then fatal
      else (map_pages (align s.size page_size / page_size + 1) sectionbase m >>= λ m1.
          load_sections content ss ((sectionbase + align s.size 32) % u64_mod)
            (fill_section content s sectionbase m1)
          >>= λ (ss', m'). ok (record s { addr = sectionbase } ∷ ss', m'))
]

-- The address of a module, by the place in the bitmap of modules that it gets; -1 is no place.
unfoldable pub module_base : Option ℕ → ℕ
module_base none = (modules_base + u64_mod - gibs2bytes 1) % u64_mod
module_base (some modid) = (modules_base + gibs2bytes 1 * modid) % u64_mod

-- `strcmp(name, wanted)` for names whose bytes hold no terminator
unfoldable pub is_called : (wanted name : Bytes) → Outcome Bool
is_called wanted name = strcmp (name ++ 0 ∷ []) (wanted ++ 0 ∷ []) >>= λ d. ok (d == 0)

abbrev pub mod_main_name : Bytes
mod_main_name = b'm' ∷ b'o' ∷ b'd' ∷ b'_' ∷ b'm' ∷ b'a' ∷ b'i' ∷ b'n' ∷ []

abbrev pub section_at : List Section → ℕ → Outcome Section
section_at secs i = elim (get_elem? secs i) [ none ↦ fatal | some s ↦ ok s ]

-- The loop that looks for the entry point; a later one takes the place of an earlier one.
unfoldable pub find_entry : List Section → List Symbol → (entry : ℕ) → Outcome ℕ
find_entry secs [] entry = ok entry
find_entry secs (y ∷ ys) entry = is_called mod_main_name y.name >>= λ same. elim same [
  | true ↦ section_at secs y.shndx >>= λ s. find_entry secs ys ((s.addr + y.value) % u64_mod)
  | false ↦ find_entry secs ys entry
]

-- The first symbol of the kernel with that name.
unfoldable pub find_ksym : (wanted : Bytes) → List Symbol → Outcome (Option ℕ)
find_ksym wanted [] = ok none
find_ksym wanted (y ∷ ys) = is_called wanted y.name >>= λ same. elim same [
  | true ↦ ok (some y.value)
  | false ↦ find_ksym wanted ys
]

-- What a symbol of the module stands for.
unfoldable pub resolve : (ksyms : List Symbol) → List Section → Symbol → Outcome ℕ
unfolding find_ksym
resolve ksyms secs y =
    if y.shndx == 0
    then ((if y.info == 3 then (section_at secs y.shndx >>= λ s. ok s.name) else ok y.name)
        >>= λ name. find_ksym name ksyms >>= λ found. elim found [ none ↦ fatal | some a ↦ ok a ])
    else (section_at secs y.shndx >>= λ s. ok ((s.addr + y.value) % u64_mod))

-- The loop over the relocations of a section, which writes 8 bytes for each: places and values, in order.
unfoldable pub relocate :
    (ksyms : List Symbol)
    → List Section
    → List Symbol
    → (mem : ℕ) → List Rela
    → Outcome (List (ℕ × ℕ))
relocate ksyms secs symtab mem [] = ok []
relocate ksyms secs symtab mem (r ∷ rs) = elim (get_elem? symtab r.symbol) [
  | none ↦ fatal
  | some y ↦ resolve ksyms secs y >>= λ address.
      if not (r.kind == 1)
      then fatal
      else (relocate ksyms secs symtab mem rs >>= λ others.
          ok (((mem + r.offset) % u64_mod, (address + r.addend) % u64_mod) ∷ others))
]

-- The loop over the sections; `rela_of` gives the relocations that a section holds.
unfoldable pub relocate_sections :
    (rela_of : Section → List Rela) (ksyms : List Symbol)
    → List Section
    → List Symbol
    → List Section
    → Outcome (List (ℕ × ℕ))
relocate_sections rela_of ksyms secs symtab [] = ok []
relocate_sections rela_of ksyms secs symtab (s ∷ ss) =
    if s.kind == 9
    then fatal
    else ((if not (s.kind == 4)
          then ok []
          else (section_at secs s.info >>= λ linkee.
              relocate ksyms secs symtab linkee.addr (rela_of s)))
        >>= λ first.
            relocate_sections rela_of ksyms secs symtab ss >>= λ others. ok (first ++ others))

unfoldable pub modules_link :
    (rela_of : Section → List Rela) (ksyms : List Symbol)
    → List Section
    → List Symbol
    → Outcome (ℕ × List (ℕ × ℕ))
modules_link rela_of ksyms secs symtab = find_entry secs symtab 0 >>= λ entry.
    if entry == 0
    then fatal
    else (relocate_sections rela_of ksyms secs symtab secs >>= λ written. ok (entry, written))

-- `*qwptr = v`, for each place and value: to write where no page is mapped is a fault.
unfoldable pub write_all : List (ℕ × ℕ) → Space → Outcome Space
write_all [] m = ok m
write_all ((at, v) ∷ ws) m = elim (m.pages (at / page_size) && m.pages ((at + 7) / page_size)) [
  | false ↦ fatal
  | true ↦ write_all ws (record m {
    bytes = λ x. if leb at x && ltb x (at + 8) then v / 2 ^ (8 * (x - at)) % 256 else m.bytes x;
  })
]

unfoldable pub modules_load :
    (content : ℕ → ℕ) (rela_of : Section → List Rela) (ksyms : List Symbol)
    → List Section
    → List Symbol
    → Bitmap
    → Space
    → Outcome (ℕ × Bitmap × Space)
modules_load content rela_of ksyms secs symtab bm m = do
  (modid, bm') ← find_and_set bm 0
  (secs', m') ← load_sections content secs (module_base modid) m
  (entry, written) ← modules_link rela_of ksyms secs' symtab
  m'' ← write_all written m'
  ok (entry, bm', m'')
