-- ===== src/Paging.antt =====
-- The page tables of kernel/src/arch/amd64/paging.{hh,cc}: four levels of 512 entries. A table is known by
-- its address in the higher half. An entry is the 64-bit word; its low 12 bits are `flags`, and to write
-- `addr` is to write the whole word. The pages that `allocpage` will get are given, and when they are used
-- up it is fatal, as wm_alloc is. The TLB is not part of the state.
pub mod Descent
pub mod Walk
use neptun_os.Base.{
  ℕ, zero, suc, ◌+◌, ◌-◌, ◌*◌, ◌/◌, ◌%◌, ◌^◌, Bool, true, false, ◌&&◌, ◌||◌, not, Option, none,
  some, List, [], ◌∷◌, Outcome, ok, fatal, ◌>>=◌, bit_or, ◌==◌, if◌then◌else◌,
}
use neptun_os.Bits.{u64_mod}
use neptun_os.Arith.{align, higher_half, physical_address}

pub record Tables : Type 0 where
  pub word : (table i : ℕ) → ℕ
  pub pages : List ℕ

-- `x & (1 << k)`
abbrev pub bit : (k x : ℕ) → Bool
bit k x = x / 2 ^ k % 2 == 1

-- `x | 0xffff800000000000` and `x & ~0xffff800000000000`
abbrev pub higher : ℕ → ℕ
higher x = x % 2 ^ 47 + higher_half

abbrev pub lower : ℕ → ℕ
lower x = x % 2 ^ 47

-- `x & ~((1 << k) - 1)`
abbrev pub clear_low : (k x : ℕ) → ℕ
clear_low k x = x / 2 ^ k * 2 ^ k

-- `x | exemask`
abbrev pub with_exemask : Bool → ℕ → ℕ
with_exemask exe x = if exe || bit 63 x then x else x + 2 ^ 63

-- `entry.flags = f`, and `entry.flags |= USER`
abbrev pub set_flags : (f e : ℕ) → ℕ
set_flags f e = clear_low 12 e + f % 2 ^ 12

abbrev pub set_user : ℕ → ℕ
set_user e = if bit 2 e then e else e + 4

-- ADDR_PML4I, ADDR_PDPI, ADDR_PDI, ADDR_PTI
abbrev pub pml4i : ℕ → ℕ
pml4i a = a / 2 ^ 39 % 512

abbrev pub pdpi : ℕ → ℕ
pdpi a = a / 2 ^ 30 % 512

abbrev pub pdi : ℕ → ℕ
pdi a = a / 2 ^ 21 % 512

abbrev pub pti : ℕ → ℕ
pti a = a / 2 ^ 12 % 512

-- The table that an entry points to.
abbrev pub table_of : ℕ → ℕ
table_of e = higher (clear_low 12 e)

unfoldable pub write : (table i v : ℕ) → Tables → Tables
write table i v m = record m { word = λ t j. if t == table && j == i then v else m.word t j }

-- A page for a table, filled with 0.
unfoldable pub allocpage : Tables → Outcome (ℕ × Tables)
allocpage m = elim m.pages [
  | [] ↦ fatal
  | p ∷ rest ↦ ok (p, record m { pages = rest; word = λ t j. if t == p then 0 else m.word t j })
]

-- The table behind entry `i` of `table`, which is made if the entry is not present.
unfoldable pub descend : (exe : Bool) (flags table i : ℕ) → Tables → Outcome (ℕ × Tables)
unfolding write allocpage
descend exe flags table i m =
    let e = m.word table i in
    if bit 0 e
    then ok (table_of e, if bit 2 flags then write table i (set_user e) m else m)
    else (allocpage m >>= λ (page, m').
        ok (page, write table i (set_flags flags (with_exemask exe (lower page))) m'))

-- `bitset(entry.addr, 63, 0)` for each entry on the way
unfoldable pub clear_nx : List (ℕ × ℕ) → Tables → Tables
unfolding write
clear_nx [] m = m
clear_nx ((t, i) ∷ path) m = clear_nx path (write t i (m.word t i % 2 ^ 63) m)

-- The last entry, `entry->addr` first and `entry->flags` at the end.
unfoldable pub put_leaf :
    (exe : Bool) (flags phys table i : ℕ) → (path : List (ℕ × ℕ)) → Tables → Tables
unfolding write clear_nx
put_leaf exe flags phys table i path m =
    let m1 = write table i (with_exemask exe phys) m in
    let m2 = if exe then clear_nx path m1 else m1 in
    write table i (set_flags flags (m2.word table i)) m2

-- The cache bits of an entry of 4 KiB, and of a larger page; bit 12 of the latter lies outside `flags`.
abbrev pub patbits4k : ℕ → ℕ
patbits4k cache = cache % 2 * 2 ^ 3 + cache / 2 % 2 * 2 ^ 4 + cache / 4 % 2 * 2 ^ 7

abbrev pub patbits2m : ℕ → ℕ
patbits2m cache = cache % 2 * 2 ^ 3 + cache / 2 % 2 * 2 ^ 4 + cache / 4 % 2 * 2 ^ 12

unfoldable pub map_page : (cr3 virt phys flags cache : ℕ) → Tables → Outcome Tables
unfolding descend put_leaf
map_page cr3 virt phys flags cache m =
    let exe = bit 32 flags in
    let s2m = bit 30 flags in
    let s1g = bit 31 flags in
    let shift : ℕ = if s2m then 21 else if s1g then 30 else 12 in
    let p = clear_low shift phys in
    let v = clear_low shift virt in
    let fl = flags % 2 ^ 13 in
    descend exe fl cr3 (pml4i v) m >>= λ (pdp, m1).
    if not s2m && s1g
    then ok (
        put_leaf exe (bit_or fl (bit_or 0x80 (patbits2m cache))) p pdp (pdpi v)
          ((cr3, pml4i v) ∷ (pdp, pdpi v) ∷ []) m1)
    else (descend exe fl pdp (pdpi v) m1 >>= λ (pd, m2).
        if s2m
        then ok (
            put_leaf exe (bit_or fl (bit_or 0x80 (patbits2m cache))) p pd (pdi v)
              ((cr3, pml4i v) ∷ (pdp, pdpi v) ∷ (pd, pdi v) ∷ []) m2)
        else (descend exe fl pd (pdi v) m2 >>= λ (pt, m3). ok (
            put_leaf exe (bit_or fl (patbits4k cache)) p pt (pti v)
              ((cr3, pml4i v) ∷ (pdp, pdpi v) ∷ (pd, pdi v) ∷ (pt, pti v) ∷ []) m3)))

-- An answer of -1 is `none`.
unfoldable pub paging_lookup : (cr3 virt : ℕ) → Tables → Option ℕ
paging_lookup cr3 virt m =
    let e4 = m.word cr3 (pml4i virt) in
    if not (bit 0 e4)
    then none
    else let e3 = m.word (table_of e4) (pdpi virt) in
      if not (bit 0 e3)
      then none
      else let e2 = m.word (table_of e3) (pdi virt) in
        if not (bit 0 e2)
        then none
        else if bit 7 e3
        then some ((table_of e3 + virt % 2 ^ 30) % u64_mod % 2 ^ 63)
        else if bit 7 e2
        then some (lower ((table_of e2 + virt % 2 ^ 21) % u64_mod) % 2 ^ 63)
        else let e1 = m.word (table_of e2) (pti virt) in
          if not (bit 0 e1) then none else some ((clear_low 12 e1 + virt % 2 ^ 12) % 2 ^ 63)

-- With the kernel's tables at `pml4`.
unfoldable pub check_page : (pml4 addr cache : ℕ) → Tables → Outcome Tables
unfolding paging_lookup map_page
check_page pml4 addr cache m = elim (paging_lookup pml4 addr m) [
  | none ↦ map_page pml4 addr (physical_address addr) 3 cache m
  | some p ↦ ok m
]

-- The loop of `check_pages` for the rounds left, `i` bytes on. It adds `i` pages to the address.
unfoldable pub check_from : (rounds i : ℕ) → (pml4 addr : ℕ) → Tables → Outcome Tables
unfolding check_page
check_from zero i pml4 addr m = ok m
check_from (suc k) i pml4 addr m =
    check_page pml4 ((addr + i * 0x1000) % u64_mod) 0 m >>= check_from k (i + 0x1000) pml4 addr

unfoldable pub check_pages : (pml4 addr bytes : ℕ) → Tables → Outcome Tables
unfolding check_from
check_pages pml4 addr bytes m = check_from (align bytes 0x1000 / 0x1000) 0 pml4 addr m
