-- ===== src/Modules/Load.antt =====
-- Where modules_load puts the sections of a module: kernel/src/devmgr/module.cc.
use neptun_os.Base.{
  ℕ, ◌+◌, ◌-◌, ◌*◌, ◌/◌, ◌%◌, ◌^◌, ◌≤◌, ◌<◌, ◌≡◌, refl, ap, ◌∙◌, sym, inl, inr, Bool, true, false,
  List, [], ◌∷◌, ok, ◌>>=◌, leb, ltb, ◌==◌, if◌then◌else◌, Bool-cases, arith,
}
use native.Mathlib.Nat.{mod-eq_of_lt}
use mathlib.Core.Bool.{false≢true}
use mathlib.Core.Path.{subst}
use neptun_os.Bits.{u64_mod}
use neptun_os.Arith.{align}
use neptun_os.Arith.Laws.{align_bounds}
use neptun_os.Modules.{Section, Space, page_size, is_loaded, map_pages, fill_section, load_sections}
use neptun_os.Modules.Pages.{Maps, map_pages-Maps}

-- A section that is loaded stands at its address: each byte lies in a page that is mapped, and is 0 or that
-- of the file.
abbrev pub IsLoaded : (content : ℕ → ℕ) → Space → Section → Type 0
IsLoaded content m s =
    is_loaded s ≡ true
    → (i : ℕ) → i < s.size
    → (m.pages ((s.addr + i) / page_size) ≡ true)
      × (m.bytes (s.addr + i) ≡ (if s.kind == 8 then 0 else content (s.offset + i)))

abbrev pub AreLoaded : (content : ℕ → ℕ) → Space → List Section → Type 0
AreLoaded content m [] = Unit
AreLoaded content m (s ∷ ss) = IsLoaded content m s × AreLoaded content m ss

-- Loaded sections follow one another from `from` on, at multiples of 32, with no byte in common, and end at
-- `to` or before.
abbrev pub AreInOrder : (from to : ℕ) → List Section → Type 0
AreInOrder from to [] = from ≤ to
AreInOrder from to (s ∷ ss) =
    if is_loaded s
    then (from ≤ s.addr) × (s.addr % 32 ≡ 0) × AreInOrder (s.addr + s.size) to ss
    else AreInOrder from to ss

-- The bytes that the sections take, each rounded up to 32.
abbrev pub total : List Section → ℕ
total [] = 0
total (s ∷ ss) = if is_loaded s then align s.size 32 + total ss else total ss

-- The pages that a section can take, and those that all do.
abbrev pub section_pages : Section → ℕ
section_pages s = align s.size page_size / page_size + 1

abbrev pub page_count : List Section → ℕ
page_count [] = 0
page_count (s ∷ ss) = if is_loaded s then section_pages s + page_count ss else page_count ss

-- The loop over the pages of each section fits its counter.
abbrev pub AreSmall : List Section → Type 0
AreSmall [] = Unit
AreSmall (s ∷ ss) = (s.size + 2 * page_size ≤ 2 ^ 32) × AreSmall ss

-- The sections without their places.
abbrev pub unplaced : List Section → List Section
unplaced [] = []
unplaced (s ∷ ss) = record s { addr = 0 } ∷ unplaced ss

-- What the memory keeps: the bytes below `from`, and every page.
abbrev pub Keeps : (from : ℕ) (m m' : Space) → Type 0
Keeps from m m' =
    ((x : ℕ) → x < from → m'.bytes x ≡ m.bytes x) × ((p : ℕ) → m.pages p ≡ true → m'.pages p ≡ true)

either-map :
    (b : Bool) {A A' B B' : Type 0}
    → (A → A')
    → (B → B')
    → (if b then A else B)
    → if b then A' else B'
either-map true f g x = f x
either-map false f g x = g x

AreInOrder-from :
    (from from' to : ℕ) (ss : List Section)
    → from ≤ from'
    → AreInOrder from' to ss
    → AreInOrder from to ss
AreInOrder-from from from' to [] h order = omega arith
AreInOrder-from from from' to (s ∷ ss) h order =
    either-map (is_loaded s) (λ (low, place, after). (omega arith, place, after))
      (AreInOrder-from from from' to ss h) order

-- A section that has just been filled.
filled-IsLoaded :
    (content : ℕ → ℕ) (s : Section) (at : ℕ) (m : Space)
    → s.size + 2 * page_size ≤ 2 ^ 32
    → ((p : ℕ)
        → at / page_size ≤ p
        → p < at / page_size + (align s.size page_size / page_size + 1)
        → m.pages p ≡ true)
    → IsLoaded content (fill_section content s at m) (record s { addr = at })
unfolding fill_section
filled-IsLoaded content s at m small mapped loaded i h =
    let (whole, most, least) = align_bounds s.size page_size (omega arith) (omega arith) in
    (
      mapped ((at + i) / page_size) (omega (arith, h, most)) (omega (arith, h, most)),
      (let low : leb at (at + i) ≡ true = ground arith in
          let high : ltb (at + i) (at + s.size) ≡ true = ground (arith, h) in
          let here : at + i - at ≡ i = omega arith in rw (low, high, here) refl),
    )

filled-below :
    (content : ℕ → ℕ) (s : Section) (at : ℕ) (m : Space) (x : ℕ)
    → x < at
    → (fill_section content s at m).bytes x ≡ m.bytes x
unfolding fill_section
filled-below content s at m x h = let below : leb at x ≡ false = ground (arith, h) in rw below refl

-- Later loads keep what was loaded below them.
IsLoaded-Keeps :
    (content : ℕ → ℕ) (from : ℕ) (m m' : Space) (s : Section)
    → s.addr + s.size ≤ from
    → Keeps from m m'
    → IsLoaded content m s
    → IsLoaded content m' s
IsLoaded-Keeps content from m m' s h (low, pages) here loaded i inside =
    let (mapped, byte) = here loaded i inside in (pages _ mapped, low _ (omega arith) ∙ byte)

-- What the loop gives on the sections `ss`.
abbrev pub Loads : (content : ℕ → ℕ) → List Section → (base : ℕ) → Space → Type 0
Loads content ss base m =
    (ss' : List Section) × (m' : Space) × (load_sections content ss base m ≡ ok (ss', m'))
    × (unplaced ss' ≡ unplaced ss)
    × AreLoaded content m' ss'
    × AreInOrder base (base + total ss) ss'
    × Keeps base m m'

is_loaded-addr : (s : Section) (at : ℕ) → is_loaded (record s { addr = at }) ≡ is_loaded s
unfolding is_loaded
is_loaded-addr s at = refl

pass :
    (content : ℕ → ℕ) (s : Section) (ss : List Section) (base : ℕ) (m : Space)
    → is_loaded s ≡ false
    → Loads content ss base m
    → Loads content (s ∷ ss) base m
unfolding load_sections
pass content s ss base m is_out (ss', m', run, same, loaded, order, keeps) = (
  s ∷ ss',
  m',
  rw (is_out, load_sections, run) refl,
  ap (λ l. record s { addr = 0 } ∷ l) same,
  ((λ h. absurd (false≢true (sym is_out ∙ h))), loaded),
  rw is_out order,
  keeps,
)

place :
    (content : ℕ → ℕ) (s : Section) (ss : List Section) (base : ℕ) (m m0 : Space)
    → is_loaded s ≡ true
    → s.size + 2 * page_size ≤ 2 ^ 32
    → base % 32 ≡ 0
    → base + align s.size 32 < u64_mod
    → map_pages (section_pages s) base m ≡ ok m0
    → Maps (section_pages s) m m0
    → ((p : ℕ) → base / page_size ≤ p → p < base / page_size + section_pages s → m0.pages p ≡ true)
    → Loads content ss (base + align s.size 32) (fill_section content s base m0)
    → Loads content (s ∷ ss) base m
unfolding load_sections fill_section
place content s ss base m m0 is_in small at fits mapping maps mapped
      (ss', m', run, same, loaded, order, (low, pages)) =
    let (whole, most, least) = align_bounds s.size 32 (omega arith) (omega arith) in
    let (_, _, pages_most) = align_bounds s.size page_size (omega arith) (omega arith) in
    let counter : leb (2 ^ 32) (align s.size page_size + page_size) ≡ false =
      ground (arith, small, pages_most) in
    let next : (base + align s.size 32) % u64_mod ≡ base + align s.size 32 = mod-eq_of_lt fits in
    let m1 = fill_section content s base m0 in
    (
      record s { addr = base } ∷ ss',
      m',
      rw (is_in, load_sections, counter) (rw (mapping, ◌>>=◌) (rw (next, run) refl)),
      ap (λ l. record s { addr = 0 } ∷ l) same,
      (
        IsLoaded-Keeps content (base + align s.size 32) m1 m' (record s { addr = base })
            (omega (arith, most)) (low, pages) (filled-IsLoaded content s base m0 small mapped),
        loaded,
      ),
      (let all : base + align s.size 32 + total ss ≡ base + (align s.size 32 + total ss) =
            omega arith in
          rw (is_loaded-addr s base, is_in)
            (
              omega arith,
              at,
              AreInOrder-from (base + s.size) (base + align s.size 32) _ ss' (omega (arith, most))
                  (subst (λ n. AreInOrder (base + align s.size 32) n ss') all order),
            )),
      (
        (λ x h.
            low x (omega (arith, h))
            ∙ filled-below content s base m0 x h
            ∙ ap (λ f. f x) maps.bytes),
        (λ p h. pages p (maps.keeps p h)),
      ),
    )

-- On sections whose sizes with two pages are at most 2^32, from a multiple of 32 on, as far as they all
-- end below the end of memory, and with a free page and room for three page tables for each page that
-- the loaded sections can touch, the loop over the sections ends without a fault: it changes nothing of
-- them but their places, each byte of a loaded section lies in a mapped page and is 0 or that of the
-- file, the sections follow one another at multiples of 32 without a byte in common, the bytes below
-- the first stay as they were, and no page is unmapped.
pub load_sections-AreLoaded :
    (content : ℕ → ℕ) (ss : List Section) (base : ℕ) (m : Space)
    → AreSmall ss
    → base % 32 ≡ 0
    → base + total ss < u64_mod
    → page_count ss ≤ m.frames
    → 3 * page_count ss ≤ m.table_room
    → Loads content ss base m
unfolding load_sections fill_section
load_sections-AreLoaded content [] base m small at fits frames room =
    ([], m, refl, refl, tt, omega arith, ((λ x h. refl), (λ p h. h)))
load_sections-AreLoaded content (s ∷ ss) base m (small, others) at fits frames room =
    elim (Bool-cases (is_loaded s)) [
      | inl is_in ↦
          let (whole, most, least) = align_bounds s.size 32 (omega arith) (omega arith) in
          let all : total (s ∷ ss) ≡ align s.size 32 + total ss = rw is_in refl in
          let count : page_count (s ∷ ss) ≡ section_pages s + page_count ss = rw is_in refl in
          let (m0, mapping, maps, mapped) =
            map_pages-Maps (section_pages s) base m (omega (arith, frames, count))
              (omega (arith, room, count)) in
          place content s ss base m m0 is_in small at (omega (arith, fits, all)) mapping maps mapped
            (load_sections-AreLoaded content ss (base + align s.size 32)
              (fill_section content s base m0) others (omega (arith, at, whole))
              (omega (arith, fits, all)) (omega (arith, frames, count, maps.frames))
              (omega (arith, room, count, maps.room)))
      | inr is_out ↦
          let all : total (s ∷ ss) ≡ total ss = rw is_out refl in
          let count : page_count (s ∷ ss) ≡ page_count ss = rw is_out refl in
          pass content s ss base m is_out (
            load_sections-AreLoaded content ss base m others at (omega (arith, fits, all))
              (omega (arith, frames, count)) (omega (arith, room, count)))
    ]
