-- ===== src/Fat/Hidden.antt =====
-- The name of an entry that the long name of an earlier one hides: kernel/modules/fat/src/fat.cc,
-- fat32_lookup.
use neptun_os.Base.{
  ℕ, ◌+◌, ◌-◌, ◌*◌, ◌≤◌, ◌<◌, ◌≡◌, ◌≢◌, ◌⊎◌, refl, ◌∙◌, inl, inr, true, false, [], ◌∷◌, ok, ◌>>=◌,
  ◌==◌, Bool-cases, length, arith,
}
use neptun_os.Text.{Bytes}
use neptun_os.Text.Copy.{drop}
use neptun_os.Text.Compare.{NoZero, strcmp_lem}
use neptun_os.Fat.{Handle}
use neptun_os.Fat.Directory.{
  attrs, is_lfn, fat32_getname, is_named, Search, searching, visit_entries, string_at,
}
use neptun_os.Fat.Names.{same-ne}
use neptun_os.Fat.Lookup.{visit_others, visit_end}

string_nonzero : (c : ℕ) (p l : Bytes) → string_at (c ∷ p) ≡ ok l → 0 < length l → (c == 0) ≡ false
unfolding string_at
string_nonzero c p [] str nonempty = absurd (omega arith)
string_nonzero c p (d ∷ l) str nonempty = elim (Bool-cases (c == 0)) [
  | inl ends ↦ let empty : ok [] ≡ ok (d ∷ l) = rw ends at str in cc
  | inr more ↦ more
]

-- The name is that of a long name that was put together and has not been used.
named_long :
    (basename l longname en : Bytes)
    → string_at longname ≡ ok l
    → 0 < length l
    → NoZero l
    → NoZero basename
    → l ≢ basename
    → (attrs en == 0) ≡ false
    → (fat32_getname longname en >>= is_named basename) ≡ ok false
unfolding fat32_getname is_named
named_long basename l [] en str nonempty n m differs used = absurd (no_string str)
  where
    no_string : string_at [] ≡ ok l → ⊥
    no_string e = unfold string_at in cc
named_long basename l (c ∷ longname) [] str nonempty n m differs used = cc
named_long basename l (c ∷ longname) (d ∷ en) str nonempty n m differs used =
    rw (string_nonzero c longname l str nonempty, str)
      (rw (strcmp_lem basename l [] [] m n) (rw (same-ne basename l differs) refl))

-- While the long name of an entry that has another name is kept, no entry without a long name is found,
-- whatever its name: the loop ends as it began.
pub visit_entries-hidden :
    (disk : ℕ → ℕ) (h : Handle) (basename l : Bytes) (s : Search) (n k i : ℕ)
    → string_at s.longname ≡ ok l
    → 0 < length l
    → NoZero l
    → NoZero basename
    → l ≢ basename
    → n ≤ k
    → ((j : ℕ)
        → j < n
        → ((attrs (drop (32 * (i + j)) s.ent) == 0) ≡ false)
          × (is_lfn (drop (32 * (i + j)) s.ent) ≡ false))
    → (n ≡ k) ⊎ ((attrs (drop (32 * (i + n)) s.ent) == 0) ≡ true)
    → visit_entries disk h basename k i s ≡ ok (searching s)
unfolding visit_entries
visit_entries-hidden disk h basename l s n k i str nonempty z m differs room short ends =
    visit_others disk h basename s n k i
      (λ j p.
        let (used, no_lfn) = short j p in
        record {
          used = used;
          no_lfn = no_lfn;
          other = inr (named_long basename l s.longname _ str nonempty z m differs used);
        })
      room
    ∙ elim ends [
      | inl all ↦ let none_left : k - n ≡ 0 = omega arith in rw none_left refl
      | inr unused ↦ visit_end disk h basename s (k - n) (i + n) unused
    ]
