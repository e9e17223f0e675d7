-- ===== src/Modules/Pages.antt =====
-- The pages that modules_load maps for a section: kernel/src/devmgr/module.cc.
use neptun_os.Base.{
  ℕ, zero, suc, ◌+◌, ◌-◌, ◌*◌, ◌/◌, ◌≤◌, ◌<◌, ◌≡◌, refl, ap, ◌∙◌, inl, inr, ◌&&◌, true, false, ok,
  ◌>>=◌, ◌==◌, if◌then◌else◌, Bool-cases, arith,
}
use neptun_os.Modules.{Space, page_size, ensure_table, map_new_page, map_pages}

-- What a call that maps up to `k` pages leaves.
pub record Maps (k : ℕ) (m m1 : Space) : Type 0 where
  pub bytes : m1.bytes ≡ m.bytes
  pub keeps : (p : ℕ) → m.pages p ≡ true → m1.pages p ≡ true
  pub frames : m.frames ≤ m1.frames + k
  pub room : m.table_room ≤ m1.table_room + 3 * k

ensure_table-room :
    (level index : ℕ) (m : Space)
    → 0 < m.table_room
    → (m1 : Space) × (ensure_table level index m ≡ ok m1)
      × (m1.bytes ≡ m.bytes)
      × (m1.pages ≡ m.pages)
      × (m1.frames ≡ m.frames)
      × (m.table_room ≤ m1.table_room + 1)
unfolding ensure_table
ensure_table-room level index m some = elim (Bool-cases (m.tables level index)) [
  | inl there ↦ (m, rw (there, ensure_table) refl, refl, refl, refl, omega arith)
  | inr absent ↦
      let e : (m.table_room == 0) ≡ false = ground (arith, some) in
      (
        record m {
          tables = λ l i. if l == level && i == index then true else m.tables l i;
          table_room = m.table_room - 1;
        },
        rw (absent, ensure_table, e) refl,
        refl,
        refl,
        refl,
        omega arith,
      )
]

map_new_page-Maps :
    (page : ℕ) (m : Space)
    → 0 < m.frames
    → 3 ≤ m.table_room
    → (m1 : Space) × (map_new_page page m ≡ ok m1) × Maps 1 m m1 × (m1.pages page ≡ true)
unfolding map_new_page
map_new_page-Maps page m some room =
    let e : (m.frames == 0) ≡ false = ground (arith, some) in
    let m0 : Space = record m { frames = m.frames - 1 } in
    let (m1, run1, bytes1, pages1, frames1, room1) =
      ensure_table-room 3 (page / 512 / 512 / 512) m0 (omega (arith, room)) in
    let (m2, run2, bytes2, pages2, frames2, room2) =
      ensure_table-room 2 (page / 512 / 512) m1 (omega (arith, room, room1)) in
    let (m3, run3, bytes3, pages3, frames3, room3) =
      ensure_table-room 1 (page / 512) m2 (omega (arith, room, room1, room2)) in
    (
      record m3 { pages = λ p. if p == page then true else m3.pages p },
      rw (map_new_page, e) (rw (run1, ◌>>=◌) (rw (run2, ◌>>=◌) (rw (run3, ◌>>=◌) refl))),
      record {
        bytes = bytes3 ∙ bytes2 ∙ bytes1;
        keeps = λ p h. elim (Bool-cases (p == page)) [
          | inl same ↦ rw same refl
          | inr other ↦ rw other (ap (λ f. f p) (pages3 ∙ pages2 ∙ pages1) ∙ h)
        ];
        frames = omega (arith, some, frames1, frames2, frames3);
        room = omega (arith, room1, room2, room3);
      },
      let same : (page == page) ≡ true = ground arith in rw same refl,
    )

-- As long as there is memory for it, the loop maps all pages that the section touches.
pub map_pages-Maps :
    (k at : ℕ) (m : Space)
    → k ≤ m.frames
    → 3 * k ≤ m.table_room
    → (m1 : Space) × (map_pages k at m ≡ ok m1)
      × Maps k m m1
      × ((p : ℕ) → at / page_size ≤ p → p < at / page_size + k → m1.pages p ≡ true)
unfolding map_pages
map_pages-Maps zero at m some room = (
  m,
  refl,
  record { bytes = refl; keeps = λ p h. h; frames = omega arith; room = omega arith },
  λ p low high. absurd (omega (arith, low, high)),
)
map_pages-Maps (suc k) at m some room = elim (Bool-cases (m.pages (at / page_size))) [
  | inl there ↦
      let (m1, run, maps, mapped) =
        map_pages-Maps k (at + page_size) m (omega (arith, some)) (omega (arith, room)) in
      (
        m1,
        rw (there, map_pages) run,
        record {
          bytes = maps.bytes;
          keeps = maps.keeps;
          frames = omega (arith, maps.frames);
          room = omega (arith, maps.room);
        },
        in_range k at m1 (maps.keeps _ there) mapped,
      )
  | inr absent ↦
      let (m0, run0, maps0, first) =
        map_new_page-Maps (at / page_size) m (omega (arith, some)) (omega (arith, room)) in
      let (m1, run, maps, mapped) =
        map_pages-Maps k (at + page_size) m0 (omega (arith, some, maps0.frames))
          (omega (arith, room, maps0.room)) in
      (
        m1,
        rw (absent, map_pages) (rw (run0, ◌>>=◌) run),
        record {
          bytes = maps.bytes ∙ maps0.bytes;
          keeps = λ p h. maps.keeps p (maps0.keeps p h);
          frames = omega (arith, maps.frames, maps0.frames);
          room = omega (arith, maps.room, maps0.room);
        },
        in_range k at m1 (maps.keeps _ first) mapped,
      )
]
  where
    in_range :
        (k at : ℕ) (m1 : Space)
        → m1.pages (at / page_size) ≡ true
        → ((p : ℕ)
            → (at + page_size) / page_size ≤ p
            → p < (at + page_size) / page_size + k
            → m1.pages p ≡ true)
        → (p : ℕ) → at / page_size ≤ p
        → p < at / page_size + suc k
        → m1.pages p ≡ true
    in_range k at m1 here others p low high = elim (Bool-cases (p == at / page_size)) [
      | inl same ↦ let e : p ≡ at / page_size = ground (arith, same) in rw e here
      | inr other ↦ others p (ground (arith, other, low)) (ground (arith, other, high))
    ]
