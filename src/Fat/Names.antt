-- ===== src/Fat/Names.antt =====
-- The short names of the entries of a folder: kernel/modules/fat/src/fat.cc, fat32_getname.
use neptun_os.Base.{
  ℕ, ◌≤◌, ◌<◌, ◌≡◌, ◌≢◌, ◌⊎◌, refl, ap, ◌∙◌, sym, inl, inr, true, false, some, none, ◌||◌, [], ◌∷◌,
  ◌++◌, ok, ◌>>=◌, ◌==◌, ltb, Bool-cases, arith,
}
use neptun_os.Text.{Bytes}
use neptun_os.Text.Compare.{NoZero, same, same_iff, strcmp_lem}
use neptun_os.Fat.Directory.{attrs, is_lfn, is_volume_id, fat32_getname, is_named, up_to_blank}

abbrev pub NoBlank : Bytes → Type 0
NoBlank [] = Unit
NoBlank (c ∷ s) = (c ≢ b' ') × NoBlank s

-- The entry begins with the name `s`, which a blank ends.
abbrev pub HasName : (en s : Bytes) → Type 0
HasName en [] = ⊥
HasName en (c ∷ s) =
    (rest : Bytes) × (en ≡ c ∷ s ++ b' ' ∷ rest)
    × NoBlank (c ∷ s)
    × NoZero (c ∷ s)
    × (c ≢ b'.')
    × (c ≤ 128)

-- The entry begins with a dot or a blank, or is a deleted one.
abbrev pub HasNoName : (en : Bytes) → Type 0
HasNoName en = (c : ℕ) × (rest : Bytes) × (en ≡ c ∷ rest) × ((c ≡ b'.') ⊎ ((c ≡ b' ') ⊎ (128 < c)))

-- An entry in use that is no part of a long name, and that is a volume label or has another name or none.
pub record IsOther (basename en : Bytes) : Type 0 where
  pub used : (attrs en == 0) ≡ false
  pub no_lfn : is_lfn en ≡ false
  pub other :
      (is_volume_id en ≡ true) ⊎ (((s : Bytes) × HasName en s × (s ≢ basename)) ⊎ HasNoName en)

-- An entry of a file or folder with that name.
pub record IsHere (basename en : Bytes) : Type 0 where
  pub used : (attrs en == 0) ≡ false
  pub no_lfn : is_lfn en ≡ false
  pub no_label : is_volume_id en ≡ false
  pub here : HasName en basename

up_to_blank-NoBlank : (s rest : Bytes) → NoBlank s → up_to_blank (s ++ b' ' ∷ rest) ≡ ok s
unfolding up_to_blank
up_to_blank-NoBlank [] rest n = refl
up_to_blank-NoBlank (c ∷ s) rest (plain, n) =
    let other : (c == b' ') ≡ false = ground (arith, plain) in
    rw (up_to_blank-NoBlank s rest n, other) refl

-- Without a long name the name is the short one.
pub fat32_getname-HasName :
    (longname en s : Bytes) → HasName en s → fat32_getname (0 ∷ longname) en ≡ ok (some s)
unfolding fat32_getname
fat32_getname-HasName longname en [] h = elim h [ ]
fat32_getname-HasName longname en (c ∷ s) (rest, e, n, nz, dot, low) =
    let begins : (c == b'.' || c == b' ' || ltb 128 c) ≡ false = ground (arith, n.0, dot, low) in
    let name : up_to_blank (c ∷ s ++ b' ' ∷ rest) ≡ ok (c ∷ s) =
      up_to_blank-NoBlank (c ∷ s) rest n in
    rw (e, begins) (rw name refl)

pub fat32_getname-HasNoName :
    (longname en : Bytes) → HasNoName en → fat32_getname (0 ∷ longname) en ≡ ok none
unfolding fat32_getname
fat32_getname-HasNoName longname en (c, rest, e, special) =
    let begins : (c == b'.' || c == b' ' || ltb 128 c) ≡ true = ground (arith, special) in
    rw (e, begins) refl

pub same-ne : (a b : Bytes) → b ≢ a → same a b ≡ false
same-ne a b differs = elim (Bool-cases (same a b)) [
  | inl equal ↦ absurd (differs (sym ((same_iff a b).0 equal)))
  | inr other ↦ other
]

pub is_named-same :
    (basename s : Bytes)
    → NoZero basename
    → NoZero s
    → is_named basename (some s) ≡ ok (same basename s)
unfolding is_named
is_named-same basename s n m =
    rw (strcmp_lem basename s [] [] n m)
      (elim (Bool-cases (same basename s)) [ inl h ↦ rw h refl | inr h ↦ rw h refl ])

-- What the loop over the entries finds out about an entry, while there is no long name.
pub named_other :
    (longname basename en : Bytes)
    → NoZero basename
    → ((s : Bytes) × HasName en s × (s ≢ basename)) ⊎ HasNoName en
    → (fat32_getname (0 ∷ longname) en >>= is_named basename) ≡ ok false
unfolding is_named
named_other longname basename en n (inl ([], h, differs)) = elim h [ ]
named_other longname basename en n (inl (c ∷ s, h, differs)) =
    let (rest, e, blank, nz, dot, low) = h in
    rw (fat32_getname-HasName longname en (c ∷ s) h, ◌>>=◌)
      (is_named-same basename (c ∷ s) n nz ∙ ap ok (same-ne basename (c ∷ s) differs))
named_other longname basename en n (inr h) = rw (fat32_getname-HasNoName longname en h, ◌>>=◌) refl

pub named_here :
    (longname basename en : Bytes)
    → NoZero basename
    → HasName en basename
    → (fat32_getname (0 ∷ longname) en >>= is_named basename) ≡ ok true
named_here longname basename en n h =
    rw (fat32_getname-HasName longname en basename h, ◌>>=◌)
      (is_named-same basename basename n n ∙ ap ok ((same_iff basename basename).1 refl))
