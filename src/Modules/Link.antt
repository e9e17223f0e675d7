-- ===== src/Modules/Link.antt =====
-- What modules_link writes for the relocations of a section: kernel/src/devmgr/module.cc.
use neptun_os.Base.{
  ℕ, ◌+◌, ◌-◌, ◌*◌, ◌/◌, ◌%◌, ◌^◌, ◌≤◌, ◌<◌, ◌≡◌, ◌≢◌, refl, ap, ◌∙◌, ◌⊎◌, inl, inr, true, false,
  ◌&&◌, Option, none, some, List, [], ◌∷◌, ok, fatal, ◌>>=◌, leb, ltb, ◌==◌, if◌then◌else◌,
  Bool-cases, get_elem?, arith,
}
use neptun_os.Bits.{u64_mod}
use neptun_os.Text.{Bytes}
use neptun_os.Text.Compare.{NoZero, same, strcmp_lem}
use neptun_os.Modules.{
  page_size, Section, Symbol, Rela, Space, is_called, find_ksym, resolve, relocate, write_all,
}

-- No name holds a terminator.
abbrev pub AreNames : List Symbol → Type 0
AreNames [] = Unit
AreNames (y ∷ ys) = NoZero y.name × AreNames ys

-- The value of the first symbol with that name.
abbrev pub first_named : (wanted : Bytes) → List Symbol → Option ℕ
first_named wanted [] = none
first_named wanted (y ∷ ys) = if same y.name wanted then some y.value else first_named wanted ys

-- What a symbol that is no section stands for: an undefined one for the symbol of the kernel with its name,
-- another for its place in its section.
abbrev pub address_of : (ksyms : List Symbol) → List Section → Symbol → Option ℕ
address_of ksyms secs y =
    if y.shndx == 0 then first_named y.name ksyms else elim (get_elem? secs y.shndx) [
      | none ↦ none
      | some s ↦ some ((s.addr + y.value) % u64_mod)
    ]

is_called_lem :
    (wanted name : Bytes)
    → NoZero wanted
    → NoZero name
    → is_called wanted name ≡ ok (same name wanted)
unfolding is_called
is_called_lem wanted name n n' =
    rw (strcmp_lem name wanted [] [] n' n)
      (elim (Bool-cases (same name wanted)) [ inl h ↦ rw h refl | inr h ↦ rw h refl ])

find_ksym_lem :
    (wanted : Bytes) (ksyms : List Symbol)
    → NoZero wanted
    → AreNames ksyms
    → find_ksym wanted ksyms ≡ ok (first_named wanted ksyms)
unfolding find_ksym
find_ksym_lem wanted [] n names = refl
find_ksym_lem wanted (y ∷ ys) n (name, names) =
    rw (is_called_lem wanted y.name n name, ◌>>=◌)
      (elim (Bool-cases (same y.name wanted)) [
        | inl h ↦ rw h refl
        | inr h ↦ rw h (find_ksym_lem wanted ys n names)
      ])

section_at_lem :
    (found : Option Section) (value a : ℕ)
    → elim found [ none ↦ none | some s ↦ some ((s.addr + value) % u64_mod) ] ≡ some a
    → (elim found [ none ↦ fatal | some s ↦ ok s ] >>= λ s. ok ((s.addr + value) % u64_mod)) ≡ ok a
section_at_lem none value a h = cc
section_at_lem (some s) value a h = cc

resolve_lem :
    (ksyms : List Symbol) (secs : List Section) (y : Symbol) (a : ℕ)
    → AreNames ksyms
    → NoZero y.name
    → y.info ≢ 3
    → address_of ksyms secs y ≡ some a
    → resolve ksyms secs y ≡ ok a
unfolding resolve
resolve_lem ksyms secs y a names name plain h = elim (Bool-cases (y.shndx == 0)) [
  | inl undefined ↦
      let found : first_named y.name ksyms ≡ some a = rw undefined at h in
      let other : (y.info == 3) ≡ false = ground (arith, plain) in
      rw (undefined, other, ◌>>=◌)
        (rw (find_ksym_lem y.name ksyms name names, ◌>>=◌) (rw found refl))
  | inr defined ↦ rw defined (section_at_lem (get_elem? secs y.shndx) y.value a (rw defined at h))
]

-- The relocations of a list with the addresses that their symbols stand for.
abbrev pub AreResolved :
    (ksyms : List Symbol) → List Section → (symtab : List Symbol) → List Rela → List ℕ → Type 0
AreResolved ksyms secs symtab [] [] = Unit
AreResolved ksyms secs symtab [] (a ∷ addresses) = ⊥
AreResolved ksyms secs symtab (r ∷ rs) [] = ⊥
AreResolved ksyms secs symtab (r ∷ rs) (a ∷ addresses) =
    (y : Symbol) × (get_elem? symtab r.symbol ≡ some y)
    × NoZero y.name
    × (y.info ≢ 3)
    × (address_of ksyms secs y ≡ some a)
    × (r.kind ≡ 1)
    × AreResolved ksyms secs symtab rs addresses

-- The 8 bytes at `at` are apart from those of every relocation.
abbrev pub IsApart : (mem at : ℕ) → List Rela → Type 0
IsApart mem at [] = Unit
IsApart mem at (r ∷ rs) =
    ((at + 8 ≤ (mem + r.offset) % u64_mod) ⊎ ((mem + r.offset) % u64_mod + 8 ≤ at))
    × IsApart mem at rs

-- The places of the relocations have no byte in common.
abbrev pub AreApart : (mem : ℕ) → List Rela → Type 0
AreApart mem [] = Unit
AreApart mem (r ∷ rs) = IsApart mem ((mem + r.offset) % u64_mod) rs × AreApart mem rs

-- The memory holds, at the place of each relocation, the sum of the address and the addend.
abbrev pub ArePatched : (mem : ℕ) → List Rela → List ℕ → Space → Type 0
ArePatched mem [] addresses m = Unit
ArePatched mem (r ∷ rs) [] m = Unit
ArePatched mem (r ∷ rs) (a ∷ addresses) m =
    ((i : ℕ)
      → i < 8
      → m.bytes ((mem + r.offset) % u64_mod + i) ≡ (a + r.addend) % u64_mod / 2 ^ (8 * i) % 256)
    × ArePatched mem rs addresses m

-- The writes for the relocations.
abbrev pub writes : (mem : ℕ) → List Rela → List ℕ → List (ℕ × ℕ)
writes mem [] addresses = []
writes mem (r ∷ rs) [] = []
writes mem (r ∷ rs) (a ∷ addresses) =
    ((mem + r.offset) % u64_mod, (a + r.addend) % u64_mod) ∷ writes mem rs addresses

relocate-AreResolved :
    (ksyms : List Symbol) (secs : List Section) (symtab : List Symbol) (mem : ℕ) (rs : List Rela)
    (addresses : List ℕ)
    → AreNames ksyms
    → AreResolved ksyms secs symtab rs addresses
    → relocate ksyms secs symtab mem rs ≡ ok (writes mem rs addresses)
unfolding relocate
relocate-AreResolved ksyms secs symtab mem [] [] names h = refl
relocate-AreResolved ksyms secs symtab mem [] (a ∷ addresses) names h = elim h [ ]
relocate-AreResolved ksyms secs symtab mem (r ∷ rs) [] names h = elim h [ ]
relocate-AreResolved ksyms secs symtab mem (r ∷ rs) (a ∷ addresses) names
      (y, found, name, plain, address, kind, h) =
    let known : (r.kind == 1) ≡ true = ground (arith, kind) in
    rw (relocate, found)
      (rw (resolve_lem ksyms secs y a names name plain address, ◌>>=◌)
        (rw (known, relocate-AreResolved ksyms secs symtab mem rs addresses names h) refl))

-- The 8 bytes at the place of each relocation lie in pages that are mapped.
abbrev pub AreWritable : (mem : ℕ) → List Rela → Space → Type 0
AreWritable mem [] m = Unit
AreWritable mem (r ∷ rs) m =
    (m.pages ((mem + r.offset) % u64_mod / page_size) ≡ true)
    × (m.pages (((mem + r.offset) % u64_mod + 7) / page_size) ≡ true)
    × AreWritable mem rs m

AreWritable-pages :
    (mem : ℕ) (rs : List Rela) (m m' : Space)
    → m'.pages ≡ m.pages
    → AreWritable mem rs m
    → AreWritable mem rs m'
AreWritable-pages mem [] m m' e h = tt
AreWritable-pages mem (r ∷ rs) m m' e (first, last, h) = (
  ap (λ f. f ((mem + r.offset) % u64_mod / page_size)) e ∙ first,
  ap (λ f. f (((mem + r.offset) % u64_mod + 7) / page_size)) e ∙ last,
  AreWritable-pages mem rs m m' e h,
)

-- What the writes leave: the bytes of each place, and every byte that no write reaches.
AreWritten : (mem : ℕ) → List Rela → List ℕ → (m m' : Space) → Type 0
AreWritten mem rs addresses m m' =
    ArePatched mem rs addresses m'
    × ((at i : ℕ) → i < 8 → IsApart mem at rs → m'.bytes (at + i) ≡ m.bytes (at + i))

write_all-AreWritten :
    (mem : ℕ) (rs : List Rela) (addresses : List ℕ) (m : Space)
    → AreApart mem rs
    → AreWritable mem rs m
    → (m' : Space) × (write_all (writes mem rs addresses) m ≡ ok m')
      × AreWritten mem rs addresses m m'
unfolding write_all AreWritten
write_all-AreWritten mem [] addresses m apart on = (m, refl, (tt, λ at i h a. refl))
write_all-AreWritten mem (r ∷ rs) [] m apart on = (m, refl, (tt, λ at i h a. refl))
write_all-AreWritten mem (r ∷ rs) (a ∷ addresses) m (here, apart) (first, last, on) =
    let place = (mem + r.offset) % u64_mod in
    let v = (a + r.addend) % u64_mod in
    let m0 : Space = record m {
      bytes = λ x.
          if leb place x && ltb x (place + 8) then v / 2 ^ (8 * (x - place)) % 256 else m.bytes x;
    } in
    let (m', run, (patched, others)) =
      write_all-AreWritten mem rs addresses m0 apart (AreWritable-pages mem rs m m0 refl on) in
    (
      m',
      rw (first, last, write_all) run,
      (
        (
          (λ i h.
              let inside : (leb place (place + i) && ltb (place + i) (place + 8)) ≡ true =
                ground (arith, h) in
              let index : place + i - place ≡ i = omega arith in
              others place i h here ∙ rw (inside, index) refl),
          patched,
        ),
        (λ at i h (away, aparts).
            let outside : (leb place (at + i) && ltb (at + i) (place + 8)) ≡ false =
              ground (arith, away, h) in
            others at i h aparts ∙ rw outside refl),
      ),
    )

-- Where each relocation is of the 64 bit type, has a symbol that is no section, the symbol is defined
-- in a section or has the name of a symbol of the kernel, and the 8 bytes at the place lie in mapped
-- pages and have no byte in common with another place, the loop over relocations and its writes end
-- without a fault: the 8 bytes at each place then hold the address of the symbol, for an undefined one
-- that of the first symbol of the kernel with its name, plus the addend, the lowest byte first, and 8
-- bytes that lie apart from all places stay as they were.
pub relocate-patched :
    (ksyms : List Symbol) (secs : List Section) (symtab : List Symbol) (mem : ℕ) (rs : List Rela)
    (addresses : List ℕ) (m : Space)
    → AreNames ksyms
    → AreResolved ksyms secs symtab rs addresses
    → AreApart mem rs
    → AreWritable mem rs m
    → (written : List (ℕ × ℕ)) × (m' : Space) × (relocate ksyms secs symtab mem rs ≡ ok written)
      × (write_all written m ≡ ok m')
      × ArePatched mem rs addresses m'
      × ((at i : ℕ) → i < 8 → IsApart mem at rs → m'.bytes (at + i) ≡ m.bytes (at + i))
unfolding AreWritten
relocate-patched ksyms secs symtab mem rs addresses m names resolved apart on =
    let (m', run, (patched, others)) = write_all-AreWritten mem rs addresses m apart on in
    (
      writes mem rs addresses,
      m',
      relocate-AreResolved ksyms secs symtab mem rs addresses names resolved,
      run,
      patched,
      others,
    )
