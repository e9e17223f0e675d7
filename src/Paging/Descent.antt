-- ===== src/Paging/Descent.antt =====
-- One step down through the page tables: kernel/src/arch/amd64/paging.cc, a level of map_page.
use neptun_os.Base.{
  ℕ, ◌+◌, ◌/◌, ◌%◌, ◌^◌, ◌≡◌, ◌≢◌, refl, ap, ◌∙◌, inl, inr, Bool, true, false, List, [], ◌∷◌,
  Outcome, ok, fatal, ◌>>=◌, ◌==◌, Bool-cases, if◌then◌else◌, arith,
}
use neptun_os.Arith.{higher_half}
use neptun_os.Paging.{
  Tables, bit, lower, clear_low, with_exemask, set_flags, set_user, table_of, write, allocpage,
  descend,
}

-- The address of a page in the higher half.
abbrev pub IsPage : ℕ → Type 0
IsPage p = clear_low 12 (lower p) + higher_half ≡ p

abbrev pub ArePages : List ℕ → Type 0
ArePages [] = Unit
ArePages (p ∷ ps) = IsPage p × ArePages ps

-- What the step down through entry `i` of `table` leaves.
pub record Descended (m m' : Tables) (table i next : ℕ) : Type 0 where
  pub present : bit 0 (m'.word table i) ≡ true
  pub no_huge : bit 7 (m'.word table i) ≡ false
  pub points : table_of (m'.word table i) ≡ next
  pub frame : (t j : ℕ) → t ≢ table → t ≢ next → m'.word t j ≡ m.word t j
  pub pages : ArePages m'.pages

user_bits :
    (e : ℕ)
    → (bit 0 (set_user e) ≡ bit 0 e)
      × (bit 7 (set_user e) ≡ bit 7 e)
      × (table_of (set_user e) ≡ table_of e)
user_bits e = elim (Bool-cases (bit 2 e)) [
  | inl set ↦ rw set (refl, refl, refl)
  | inr clear ↦
      let room : e / 2 ^ 2 % 2 ≡ 0 = ground (arith, clear) in
      let b0 : (e + 4) / 2 ^ 0 % 2 ≡ e / 2 ^ 0 % 2 = omega arith in
      let b7 : (e + 4) / 2 ^ 7 % 2 ≡ e / 2 ^ 7 % 2 = omega (arith, room) in
      let up : (e + 4) / 2 ^ 12 ≡ e / 2 ^ 12 = omega (arith, room) in
      rw (clear, b0, b7, up) (refl, refl, refl)
]

new_bits :
    (exe : Bool) (flags page : ℕ)
    → bit 0 flags ≡ true
    → bit 7 flags ≡ false
    → IsPage page
    → (bit 0 (set_flags flags (with_exemask exe (lower page))) ≡ true)
      × (bit 7 (set_flags flags (with_exemask exe (lower page))) ≡ false)
      × (table_of (set_flags flags (with_exemask exe (lower page))) ≡ page)
new_bits exe flags page p0 p7 is =
    let low63 : bit 63 (lower page) ≡ false = ground arith in
    let x : ℕ = with_exemask exe (lower page) in
    let x_low : x % 2 ^ 47 ≡ lower page = ground (arith, low63) in
    let b0 : set_flags flags x / 2 ^ 0 % 2 ≡ flags / 2 ^ 0 % 2 = omega arith in
    let b7 : set_flags flags x / 2 ^ 7 % 2 ≡ flags / 2 ^ 7 % 2 = omega arith in
    let up : table_of (set_flags flags x) ≡ clear_low 12 (lower page) + higher_half =
      omega (arith, x_low) in
    (ap (λ t. t == 1) b0 ∙ p0, ap (λ t. t == 1) b7 ∙ p7, up ∙ is)

-- What holds of a step that returns.
abbrev Leads : (m : Tables) (table i : ℕ) → Outcome (ℕ × Tables) → Type 0
Leads m table i fatal = Unit
Leads m table i (ok (next, m')) = Descended m m' table i next

module _ (exe : Bool) (flags table i : ℕ) (m : Tables) (p0 : bit 0 flags ≡ true)
    (p7 : bit 7 flags ≡ false) (pages : ArePages m.pages) where
  descend-present :
      bit 0 (m.word table i) ≡ true
      → bit 7 (m.word table i) ≡ false
      → Leads m table i (descend exe flags table i m)
  unfolding descend write
  descend-present there h7 =
      let (u0, u7, up) = user_bits (m.word table i) in
      let self : (table == table) ≡ true = ground arith in
      let self' : (i == i) ≡ true = ground arith in
      rw there (elim (Bool-cases (bit 2 flags)) [
        | inl user ↦ rw user (record {
          present = rw (self, self') (u0 ∙ there);
          no_huge = rw (self, self') (u7 ∙ h7);
          points = rw (self, self') up;
          frame = λ t j h h'. let other : (t == table) ≡ false = ground (arith, h) in rw other refl;
          pages = pages;
        })
        | inr kernel ↦ rw kernel (record {
          present = there;
          no_huge = h7;
          points = refl;
          frame = λ t j h h'. refl;
          pages = pages;
        })
      ])

  descend-absent : bit 0 (m.word table i) ≡ false → Leads m table i (descend exe flags table i m)
  unfolding descend write allocpage
  descend-absent gone = rw gone (made m.pages pages)
    where
      made :
          (ps : List ℕ)
          → ArePages ps
          → Leads m table i (
              (elim ps [
                | [] ↦ fatal
                | p ∷ rest ↦
                    ok
                      (p, record m { pages = rest; word = λ t j. if t == p then 0 else m.word t j })
              ])
              >>= λ (page, m').
                  ok (page, write table i (set_flags flags (with_exemask exe (lower page))) m'))
      made [] h = tt
      made (p ∷ rest) h =
          let (n0, n7, np) = new_bits exe flags p p0 p7 h.0 in
          let self : (table == table) ≡ true = ground arith in
          let self' : (i == i) ≡ true = ground arith in
          record {
            present = rw (self, self') n0;
            no_huge = rw (self, self') n7;
            points = rw (self, self') np;
            frame = λ t j out out'.
                let other : (t == table) ≡ false = ground (arith, out) in
                let other' : (t == p) ≡ false = ground (arith, out') in rw (other, other') refl;
            pages = h.1;
          }

  pub descend-Descended :
      (next : ℕ) (m' : Tables)
      → descend exe flags table i m ≡ ok (next, m')
      → bit 7 (m.word table i) ≡ false
      → Descended m m' table i next
  descend-Descended next m' e h7 = elim (Bool-cases (bit 0 (m.word table i))) [
    | inl there ↦ rw e at (descend-present there h7)
    | inr gone ↦ rw e at (descend-absent gone)
  ]
