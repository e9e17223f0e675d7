-- ===== src/Paging/Walk.antt =====
-- The walk through the page tables finds what was mapped: kernel/src/arch/amd64/paging.{hh,cc}.
use neptun_os.Base.{
  ℕ, ◌+◌, ◌/◌, ◌%◌, ◌^◌, ◌<◌, ◌≡◌, ◌≢◌, refl, ap, ◌∙◌, ◌⊎◌, inl, inr, Bool, true, false, ◌&&◌, some,
  List, [], ◌∷◌, ok, bit_or, ◌==◌, Bool-cases, arith,
}
use neptun_os.Bits.{testbit, testbit-or}
use neptun_os.Paging.{
  Tables, bit, clear_low, with_exemask, set_flags, pml4i, pdpi, pdi, pti, table_of, write, descend,
  clear_nx, put_leaf, patbits4k, map_page, paging_lookup,
}
use neptun_os.Paging.Descent.{Descended, ArePages, descend-Descended}

-- Equal, but for the top bit that may have been cleared.
abbrev Cleared : (a b : ℕ) → Type 0
Cleared a b = (a ≡ b) ⊎ (a ≡ b % 2 ^ 63)

Cleared-trans : (a b c : ℕ) → Cleared a b → Cleared b c → Cleared a c
Cleared-trans a b c (inl e) (inl e') = inl (e ∙ e')
Cleared-trans a b c (inl e) (inr e') = inr (e ∙ e')
Cleared-trans a b c (inr e) (inl e') = inr (e ∙ ap (λ w. w % 2 ^ 63) e')
Cleared-trans a b c (inr e) (inr e') = inr (omega (arith, e, e'))

clear_nx-Cleared :
    (path : List (ℕ × ℕ)) (m : Tables) (t i : ℕ) → Cleared ((clear_nx path m).word t i) (m.word t i)
unfolding clear_nx write
clear_nx-Cleared [] m t i = inl refl
clear_nx-Cleared ((s, j) ∷ path) m t i =
    let one : ℕ = m.word s j % 2 ^ 63 in
    let first : Cleared ((write s j one m).word t i) (m.word t i) =
      written (Bool-cases (t == s && i == j)) in
    Cleared-trans _ _ _ (clear_nx-Cleared path (write s j one m) t i) first
  where
    written :
        ((t == s && i == j) ≡ true) ⊎ ((t == s && i == j) ≡ false)
        → Cleared ((write s j (m.word s j % 2 ^ 63) m).word t i) (m.word t i)
    written (inl here) =
        let et : t ≡ s = ground (arith, here) in
        let ej : i ≡ j = ground (arith, here) in inr (rw here (rw (et, ej) refl))
    written (inr other) = inl (rw other refl)

-- What is read of an entry does not depend on the top bit.
Cleared-bits :
    (a b : ℕ) → Cleared a b → (bit 0 a ≡ bit 0 b) × (bit 7 a ≡ bit 7 b) × (table_of a ≡ table_of b)
Cleared-bits a b (inl e) = rw e (refl, refl, refl)
Cleared-bits a b (inr e) =
    let b0 : b % 2 ^ 63 / 2 ^ 0 % 2 ≡ b / 2 ^ 0 % 2 = omega arith in
    let b7 : b % 2 ^ 63 / 2 ^ 7 % 2 ≡ b / 2 ^ 7 % 2 = omega arith in
    let up : table_of (b % 2 ^ 63) ≡ table_of b = omega arith in
    rw (e, b0, b7, up) (refl, refl, refl)

-- Writing the last entry leaves the others as they were, but for top bits.
put_leaf-Cleared :
    (exe : Bool) (flags phys table i : ℕ) (path : List (ℕ × ℕ)) (m : Tables) (t j : ℕ)
    → t ≢ table
    → Cleared ((put_leaf exe flags phys table i path m).word t j) (m.word t j)
unfolding put_leaf write
put_leaf-Cleared true flags phys table i path m t j out =
    let other : (t == table) ≡ false = ground (arith, out) in
    rw other (
      Cleared-trans _ _ _ (clear_nx-Cleared path (write table i (with_exemask true phys) m) t j)
        (inl (rw other refl)))
put_leaf-Cleared false flags phys table i path m t j out =
    let other : (t == table) ≡ false = ground (arith, out) in rw other (inl refl)

leaf_bits :
    (flags phys y : ℕ)
    → bit 0 flags ≡ true
    → clear_low 12 phys ≡ phys
    → y % 2 ^ 63 ≡ phys
    → (bit 0 (set_flags flags y) ≡ true) × (clear_low 12 (set_flags flags y) % 2 ^ 63 ≡ phys)
leaf_bits flags phys y p0 aligned low =
    let b0 : set_flags flags y / 2 ^ 0 % 2 ≡ flags / 2 ^ 0 % 2 = omega arith in
    (ap (λ t. t == 1) b0 ∙ p0, omega (arith, aligned, low))

-- The last entry gives the page that was asked for.
put_leaf_lem :
    (exe : Bool) (flags phys table i : ℕ) (path : List (ℕ × ℕ)) (m : Tables)
    → bit 0 flags ≡ true
    → phys < 2 ^ 63
    → clear_low 12 phys ≡ phys
    → (bit 0 ((put_leaf exe flags phys table i path m).word table i) ≡ true)
      × (clear_low 12 ((put_leaf exe flags phys table i path m).word table i) % 2 ^ 63 ≡ phys)
unfolding put_leaf write
put_leaf_lem true flags phys table i path m p0 small aligned =
    let self : (table == table) ≡ true = ground arith in
    let self' : (i == i) ≡ true = ground arith in
    let m1 = write table i phys m in
    let here : m1.word table i ≡ phys = rw (self, self') refl in
    rw (self, self')
      (leaf_bits flags phys ((clear_nx path m1).word table i) p0 aligned
        (elim (clear_nx-Cleared path m1 table i) [
          | inl e ↦ omega (arith, e, here)
          | inr e ↦ omega (arith, e, here)
        ]))
put_leaf_lem false flags phys table i path m p0 small aligned =
    let self : (table == table) ≡ true = ground arith in
    let self' : (i == i) ≡ true = ground arith in
    let low63 : bit 63 phys ≡ false = ground arith in
    rw (self, self', low63) (leaf_bits flags phys (phys + 2 ^ 63) p0 aligned (omega arith))

-- The walk, by what stands in the four entries.
paging_lookup_steps :
    (cr3 virt pdp pd pt a b c d : ℕ) (m : Tables)
    → pml4i virt ≡ a
    → pdpi virt ≡ b
    → pdi virt ≡ c
    → pti virt ≡ d
    → bit 0 (m.word cr3 a) ≡ true
    → table_of (m.word cr3 a) ≡ pdp
    → bit 0 (m.word pdp b) ≡ true
    → bit 7 (m.word pdp b) ≡ false
    → table_of (m.word pdp b) ≡ pd
    → bit 0 (m.word pd c) ≡ true
    → bit 7 (m.word pd c) ≡ false
    → table_of (m.word pd c) ≡ pt
    → bit 0 (m.word pt d) ≡ true
    → paging_lookup cr3 virt m ≡ some ((clear_low 12 (m.word pt d) + virt % 2 ^ 12) % 2 ^ 63)
unfolding paging_lookup
paging_lookup_steps cr3 virt pdp pd pt a b c d m ea eb ec ed p4 t4 p3 h3 t3 p2 h2 t2 p1 =
    rw (ea, p4, t4, eb, p3, t3, ec, p2, h3, h2, t2, ed, p1) refl

-- The walk after three steps down and the last entry.
put_leaf-lookup :
    (exe : Bool) (f p cr3 virt pdp pd pt a b c d : ℕ) (path : List (ℕ × ℕ)) (m m1 m2 m3 : Tables)
    → Descended m m1 cr3 a pdp
    → Descended m1 m2 pdp b pd
    → Descended m2 m3 pd c pt
    → (cr3 ≢ pdp) × (cr3 ≢ pd) × (cr3 ≢ pt) × (pdp ≢ pd) × (pdp ≢ pt) × (pd ≢ pt)
    → (pml4i virt ≡ a) × (pdpi virt ≡ b) × (pdi virt ≡ c) × (pti virt ≡ d)
    → bit 0 f ≡ true
    → p < 2 ^ 63
    → clear_low 12 p ≡ p
    → paging_lookup cr3 virt (put_leaf exe f p pt d path m3) ≡ some ((p + virt % 2 ^ 12) % 2 ^ 63)
put_leaf-lookup exe f p cr3 virt pdp pd pt a b c d path m m1 m2 m3 d4 d3 d2
      (apart43, apart42, apart41, apart32, apart31, apart21) (ea, eb, ec, ed) f0 in_range aligned =
    let same4 : m3.word cr3 a ≡ m1.word cr3 a =
      d2.frame cr3 a apart42 apart41 ∙ d3.frame cr3 a apart43 apart42 in
    let same3 : m3.word pdp b ≡ m2.word pdp b = d2.frame pdp b apart32 apart31 in
    read (put_leaf exe f p pt d path m3)
      (Cleared-trans _ _ _ (put_leaf-Cleared exe f p pt d path m3 cr3 a apart41) (inl same4))
      (Cleared-trans _ _ _ (put_leaf-Cleared exe f p pt d path m3 pdp b apart31) (inl same3))
      (put_leaf-Cleared exe f p pt d path m3 pd c apart21)
      (put_leaf_lem exe f p pt d path m3 f0 in_range aligned)
  where
    read :
        (m' : Tables)
        → Cleared (m'.word cr3 a) (m1.word cr3 a)
        → Cleared (m'.word pdp b) (m2.word pdp b)
        → Cleared (m'.word pd c) (m3.word pd c)
        → (bit 0 (m'.word pt d) ≡ true) × (clear_low 12 (m'.word pt d) % 2 ^ 63 ≡ p)
        → paging_lookup cr3 virt m' ≡ some ((p + virt % 2 ^ 12) % 2 ^ 63)
    read m' c4 c3 c2 (b1, found) =
        let (b4, h4, t4) = Cleared-bits (m'.word cr3 a) (m1.word cr3 a) c4 in
        let (b3, h3, t3) = Cleared-bits (m'.word pdp b) (m2.word pdp b) c3 in
        let (b2, h2, t2) = Cleared-bits (m'.word pd c) (m3.word pd c) c2 in
        let sum : (clear_low 12 (m'.word pt d) + virt % 2 ^ 12) % 2 ^ 63
            ≡ (p + virt % 2 ^ 12) % 2 ^ 63 =
          omega (arith, found) in
        paging_lookup_steps cr3 virt pdp pd pt a b c d m' ea eb ec ed (b4 ∙ d4.present)
          (t4 ∙ d4.points) (b3 ∙ d3.present) (h3 ∙ d3.no_huge) (t3 ∙ d3.points) (b2 ∙ d2.present)
          (h2 ∙ d2.no_huge) (t2 ∙ d2.points) b1
        ∙ ap some sum

-- A page of 4 KiB is found where it was mapped.
module _ (cr3 virt phys flags cache : ℕ) (m m1 m2 m3 : Tables) (pdp pd pt : ℕ)
    (small : bit 30 flags ≡ false) (small' : bit 31 flags ≡ false) (present : bit 0 flags ≡ true)
    (one_page : bit 7 flags ≡ false) (pages : ArePages m.pages) (in_range : phys < 2 ^ 63)
    (step4 : descend (bit 32 flags) (flags % 2 ^ 13) cr3 (pml4i (clear_low 12 virt)) m
      ≡ ok (pdp, m1))
    (step3 : descend (bit 32 flags) (flags % 2 ^ 13) pdp (pdpi (clear_low 12 virt)) m1
      ≡ ok (pd, m2))
    (step2 : descend (bit 32 flags) (flags % 2 ^ 13) pd (pdi (clear_low 12 virt)) m2 ≡ ok (pt, m3))
    (no_huge4 : bit 7 (m.word cr3 (pml4i (clear_low 12 virt))) ≡ false)
    (no_huge3 : bit 7 (m1.word pdp (pdpi (clear_low 12 virt))) ≡ false)
    (no_huge2 : bit 7 (m2.word pd (pdi (clear_low 12 virt))) ≡ false) (apart43 : cr3 ≢ pdp)
    (apart42 : cr3 ≢ pd) (apart41 : cr3 ≢ pt) (apart32 : pdp ≢ pd) (apart31 : pdp ≢ pt)
    (apart21 : pd ≢ pt) where
  -- When the three steps down for an address return tables that are different from one another, through
  -- entries that are no larger pages, a page of 4 KiB whose flags have the present bit and not the one
  -- of a larger page is mapped, and looking the address up then gives the physical page and the offset.
  pub paging_lookup-map_page :
      (m' : Tables) × (map_page cr3 virt phys flags cache m ≡ ok m')
      × (paging_lookup cr3 virt m' ≡ some (clear_low 12 phys + virt % 2 ^ 12))
  unfolding map_page testbit
  paging_lookup-map_page =
      let exe = bit 32 flags in
      let fl : ℕ = flags % 2 ^ 13 in
      let v : ℕ = clear_low 12 virt in
      let p : ℕ = clear_low 12 phys in
      let f : ℕ = bit_or fl (patbits4k cache) in
      let fl0 : fl / 2 ^ 0 % 2 ≡ flags / 2 ^ 0 % 2 = omega arith in
      let fl7 : fl / 2 ^ 7 % 2 ≡ flags / 2 ^ 7 % 2 = omega arith in
      let present' : bit 0 fl ≡ true = ap (λ t. t == 1) fl0 ∙ present in
      let one_page' : bit 7 fl ≡ false = ap (λ t. t == 1) fl7 ∙ one_page in
      let f0 : bit 0 f ≡ true = ground (arith, testbit-or fl (patbits4k cache) 0, present') in
      let d4 =
        descend-Descended exe fl cr3 (pml4i v) m present' one_page' pages pdp m1 step4 no_huge4 in
      let d3 =
        descend-Descended exe fl pdp (pdpi v) m1 present' one_page' d4.pages pd m2 step3 no_huge3 in
      let d2 =
        descend-Descended exe fl pd (pdi v) m2 present' one_page' d3.pages pt m3 step2 no_huge2 in
      let path : List (ℕ × ℕ) = (cr3, pml4i v) ∷ (pdp, pdpi v) ∷ (pd, pdi v) ∷ (pt, pti v) ∷ [] in
      let aligned : clear_low 12 p ≡ p = omega arith in
      let whole : (p + virt % 2 ^ 12) % 2 ^ 63 ≡ p + virt % 2 ^ 12 = omega (arith, in_range) in
      let walk =
        put_leaf-lookup exe f p cr3 virt pdp pd pt (pml4i v) (pdpi v) (pdi v) (pti v) path m m1 m2
          m3 d4 d3 d2 (apart43, apart42, apart41, apart32, apart31, apart21)
          (omega arith, omega arith, omega arith, omega arith) f0 (omega (arith, in_range))
          aligned in
      (
        put_leaf exe f p pt (pti v) path m3,
        rw (small, small', step4, step3, step2) refl,
        walk ∙ ap some whole,
      )
