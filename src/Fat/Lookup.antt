-- ===== src/Fat/Lookup.antt =====
-- Which entry a path leads to: kernel/modules/fat/src/fat.cc, fat32_lookup.
use neptun_os.Base.{
  ℕ, zero, suc, ◌+◌, ◌-◌, ◌*◌, ◌≤◌, ◌<◌, ◌≡◌, ◌≢◌, ◌⊎◌, refl, ◌∙◌, inl, inr, true, false, ◌||◌, [],
  ◌∷◌, ◌++◌, Outcome, ok, fatal, ◌>>=◌, ◌==◌, Bool-cases, arith, set,
}
use neptun_os.Text.{Bytes, peek}
use neptun_os.Text.Copy.{drop}
use neptun_os.Text.Compare.{NoZero, c_string}
use neptun_os.Disk.{msd_read}
use neptun_os.Fat.{Handle}
use neptun_os.Fat.Directory.{
  attrs, is_lfn, is_volume_id, fat32_getname, is_named, Search, Visit, arrived, searching,
  visit_entries, skip_slashes, segment, lookup_from, fat32_lookup, zeros,
}
use neptun_os.Fat.Names.{IsOther, named_other}

-- An entry that the loop over the entries passes by, as it stands in the code.
pub record IsPassed (basename longname en : Bytes) : Type 0 where
  pub used : (attrs en == 0) ≡ false
  pub no_lfn : is_lfn en ≡ false
  pub other :
      (is_volume_id en ≡ true) ⊎ ((fat32_getname longname en >>= is_named basename) ≡ ok false)

-- An entry that the loop ends with.
record IsTaken (basename longname en : Bytes) : Type 0 where
  pub used : (attrs en == 0) ≡ false
  pub no_lfn : is_lfn en ≡ false
  pub no_label : is_volume_id en ≡ false
  pub here : (fat32_getname longname en >>= is_named basename) ≡ ok true

module _ (disk : ℕ → ℕ) (h : Handle) (basename : Bytes) (s : Search) where
  visit_other :
      (k i : ℕ)
      → IsPassed basename s.longname (drop (32 * i) s.ent)
      → visit_entries disk h basename (suc k) i s ≡ visit_entries disk h basename k (i + 1) s
  unfolding visit_entries
  visit_other k i o = elim o.other [
    | inl label ↦ rw (o.used, o.no_lfn, label, visit_entries) refl
    | inr named ↦ elim (Bool-cases (is_volume_id (drop (32 * i) s.ent))) [
      | inl label ↦ rw (o.used, o.no_lfn, label, visit_entries) refl
      | inr file ↦ rw (o.used, o.no_lfn, file, named, visit_entries) refl
    ]
  ]

  pub visit_others :
      (n k i : ℕ)
      → ((j : ℕ) → j < n → IsPassed basename s.longname (drop (32 * (i + j)) s.ent))
      → n ≤ k
      → visit_entries disk h basename k i s ≡ visit_entries disk h basename (k - n) (i + n) s
  visit_others zero k i others room =
      let k_eq : k - 0 ≡ k = omega arith in
      let i_eq : i + 0 ≡ i = omega arith in rw (k_eq, i_eq) refl
  visit_others (suc n) zero i others room = absurd (omega arith)
  visit_others (suc n) (suc k) i others room =
      let i_eq : i + 0 ≡ i = omega arith in
      let k_end : suc k - suc n ≡ k - n = omega arith in
      let i_end : i + suc n ≡ i + 1 + n = omega arith in
      visit_other k i (rw i_eq at (others 0 (omega arith)))
      ∙ visit_others n k (i + 1)
          (λ j p.
            let shift : i + suc j ≡ i + 1 + j = omega arith in
            rw shift at (others (suc j) (omega (arith, p))))
          (omega arith)
      ∙ rw (k_end, i_end) refl

  -- Entries that are not in use any more end the sector.
  pub visit_end :
      (k i : ℕ)
      → (attrs (drop (32 * i) s.ent) == 0) ≡ true
      → visit_entries disk h basename k i s ≡ ok (searching s)
  unfolding visit_entries
  visit_end zero i unused = refl
  visit_end (suc k) i unused = rw (unused, visit_entries) refl

-- The name of a file or folder: no terminator and no slash in it.
abbrev pub IsPart : Bytes → Type 0
IsPart [] = Unit
IsPart (c ∷ s) = (c ≢ 0) × (c ≢ b'/') × IsPart s

segment-part : (s behind : Bytes) → IsPart s → segment (c_string s behind) ≡ ok s
unfolding segment
segment-part [] behind p = refl
segment-part (c ∷ s) behind (nonzero, part, p) =
    let inner : (c == b'/' || c == 0) ≡ false = ground arith in
    rw (inner, segment-part s behind p) refl

skip_slashes-part : (c : ℕ) (s : Bytes) → c ≢ b'/' → skip_slashes (b'/' ∷ c ∷ s) ≡ c ∷ s
unfolding skip_slashes
skip_slashes-part c s part = let other : (c == b'/') ≡ false = ground arith in rw other refl

-- One round of the loop over the parts of the path.
lookup_steps :
    (disk : ℕ → ℕ) (h : Handle) (k : ℕ) (s : Search) (c d : ℕ) (path basename : Bytes) (v : Visit)
    (r : Outcome Bytes)
    → peek s.path ≡ ok c
    → (c == 0) ≡ false
    → skip_slashes s.path ≡ path
    → peek path ≡ ok d
    → (d == 0) ≡ false
    → segment path ≡ ok basename
    → visit_entries disk h basename 16 0 (record s { path = path; found = false }) ≡ ok v
    → (elim v as (λ v'. Outcome Bytes) [
      | arrived e ↦ ok e
      | searching s' ↦ elim s'.found [ true ↦ lookup_from disk h k s' | false ↦ fatal ]
    ])
      ≡ r
    → lookup_from disk h (suc k) s ≡ r
unfolding lookup_from
lookup_steps disk h k s c d path basename v r e1 e2 e3 e4 e5 e6 e7 e8 =
    rw (e1, lookup_from) (rw (e2, ◌>>=◌) (rw (e3, e4) (rw (e5, ◌>>=◌) (rw (e3, e6, e7) e8))))

-- The sector of the root folder as fat32_lookup has it: the first entry leads to the root's cluster.
abbrev pub root_sector : Bytes → Bytes
root_sector ent = set (set (set (set ent 20 0) 21 0) 26 2) 27 0

IsOther-IsPassed :
    (longname basename en : Bytes)
    → NoZero basename
    → IsOther basename en
    → IsPassed basename (0 ∷ longname) en
IsOther-IsPassed longname basename en n o = record {
  used = o.used;
  no_lfn = o.no_lfn;
  other = elim o.other [
    | inl label ↦ inl label
    | inr named ↦ inr (named_other longname basename en n named)
  ];
}

IsPart-NoZero : (s : Bytes) → IsPart s → NoZero s
IsPart-NoZero [] p = tt
IsPart-NoZero (c ∷ s) (nonzero, part, p) = (nonzero, IsPart-NoZero s p)

module _ (disk : ℕ → ℕ) (h : Handle) (rounds : ℕ) (c : ℕ) (cs behind ent : Bytes)
    (part : IsPart (c ∷ cs)) (read : msd_read disk h.dataoffset 512 512 ≡ ok ent) where
  begun : Search
  begun = record {
    ent = root_sector ent;
    longname = zeros 256;
    path = c_string (c ∷ cs) behind;
    found = false;
  }

  lookup_begun :
      (v : Visit) (r : Outcome Bytes)
      → visit_entries disk h (c ∷ cs) 16 0 begun ≡ ok v
      → (elim v as (λ v'. Outcome Bytes) [
        | arrived e ↦ ok e
        | searching s' ↦ elim s'.found [ true ↦ lookup_from disk h rounds s' | false ↦ fatal ]
      ])
        ≡ r
      → fat32_lookup disk h (suc rounds) (b'/' ∷ c_string (c ∷ cs) behind) ≡ r
  unfolding fat32_lookup begun
  lookup_begun v r visited ends =
      let skipped = skip_slashes-part c (cs ++ 0 ∷ behind) part.1 in
      let more : (c == 0) ≡ false = ground (arith, part.0) in
      rw (read, fat32_lookup)
        (lookup_steps disk h rounds (record begun { path = b'/' ∷ c_string (c ∷ cs) behind }) b'/' c
          (c_string (c ∷ cs) behind) (c ∷ cs) v r refl refl skipped refl more
          (segment-part (c ∷ cs) behind part) visited ends)

  -- If the entries up to number `n` have no long names and are volume labels or have other names, and
  -- entry `n` is not in use, or there are 16 of them, the lookup is fatal.
  pub fat32_lookup-missing :
      (n : ℕ)
      → n ≤ 16
      → ((j : ℕ) → j < n → IsOther (c ∷ cs) (drop (32 * j) (root_sector ent)))
      → (n ≡ 16) ⊎ ((attrs (drop (32 * n) (root_sector ent)) == 0) ≡ true)
      → fat32_lookup disk h (suc rounds) (b'/' ∷ c_string (c ∷ cs) behind) ≡ fatal
  unfolding begun visit_entries
  fat32_lookup-missing n below others ends =
      lookup_begun (searching begun) fatal
        (visit_others disk h (c ∷ cs) begun n 16 0
            (λ j p.
              let at : 0 + j ≡ j = omega arith in
              rw at (
                IsOther-IsPassed (zeros 255) (c ∷ cs) _ (IsPart-NoZero (c ∷ cs) part) (others j p)))
            (omega arith)
          ∙ elim ends [
            | inl all ↦ let none_left : 16 - n ≡ 0 = omega arith in rw none_left refl
            | inr unused ↦
                let at_n : 0 + n ≡ n = omega arith in
                rw at_n (visit_end disk h (c ∷ cs) begun (16 - n) n unused)
          ])
        refl
