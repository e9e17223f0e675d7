-- ===== src/Text/Split.antt =====
-- Going through the fields of a text.
use neptun_os.Base.{
  ℕ, zero, suc, ◌+◌, ◌≤◌, ◌≡◌, ◌≢◌, refl, ◌∙◌, ap, false, ◌&&◌, not, List, [], ◌∷◌, ◌++◌, ok, ◌>>=◌,
  arith, ◌==◌, length, get_or,
}
use neptun_os.Text.{Bytes}
use neptun_os.Text.View.{
  StringSplitIterator, field_size, deref, skip_field, increment, increment_by, differs_from_end,
}

-- A field holds neither the delimiter nor a terminator.
abbrev pub IsField : (delimiter : ℕ) → Bytes → Type 0
IsField delimiter [] = Unit
IsField delimiter (c ∷ f) = (c ≢ 0) × (c ≢ delimiter) × IsField delimiter f

abbrev pub AreFields : (delimiter : ℕ) → List Bytes → Type 0
AreFields delimiter [] = Unit
AreFields delimiter (f ∷ fs) = IsField delimiter f × AreFields delimiter fs

-- The first field and the others, with delimiters between them, then a terminator and `behind`.
unfoldable pub joined : (delimiter : ℕ) → Bytes → List Bytes → Bytes → Bytes
joined delimiter f [] behind = f ++ 0 ∷ behind
joined delimiter f (g ∷ fs) behind = f ++ delimiter ∷ joined delimiter g fs behind

-- The byte behind a field: the delimiter, or the terminator.
abbrev IsStop : (delimiter : ℕ) → ℕ → Type 0
IsStop delimiter c = (not (c == 0) && not (c == delimiter)) ≡ false

skip_field_lem :
    (delimiter : ℕ) (f : Bytes) (stop : ℕ) (behind : Bytes)
    → IsField delimiter f
    → IsStop delimiter stop
    → skip_field delimiter (f ++ stop ∷ behind) ≡ ok behind
unfolding skip_field
skip_field_lem delimiter [] stop behind h s = rw s refl
skip_field_lem delimiter (c ∷ f) stop behind (nz, nd, h) s =
    ground (arith, skip_field_lem delimiter f stop behind h s)

field_size_lem :
    (delimiter i : ℕ) (f : Bytes) (stop : ℕ) (behind : Bytes)
    → IsField delimiter f
    → IsStop delimiter stop
    → field_size delimiter i (f ++ stop ∷ behind) ≡ ok (i + length f)
unfolding field_size
field_size_lem delimiter i [] stop behind h s = rw s (ap ok (omega arith))
field_size_lem delimiter i (c ∷ f) stop behind (nz, nd, h) s =
    ground (arith, field_size_lem delimiter (i + 1) f stop behind h s)

-- the iterator at the beginning of a text of fields
abbrev pub at_fields : (delimiter : ℕ) → Bytes → List Bytes → Bytes → StringSplitIterator
at_fields delimiter f fs behind = record {
  str = joined delimiter f fs behind;
  delimiter = delimiter;
}

-- Dereferencing gives a view of the first field.
pub deref_lem :
    (delimiter : ℕ) (f : Bytes) (fs : List Bytes) (behind : Bytes)
    → IsField delimiter f
    → deref (at_fields delimiter f fs behind)
      ≡ ok (record { str = joined delimiter f fs behind; size = length f })
unfolding deref joined
deref_lem delimiter f [] behind h =
    rw (field_size_lem delimiter 0 f 0 behind h refl)
      (ap (λ t. ok (record { str = f ++ 0 ∷ behind; size = t })) (omega arith))
deref_lem delimiter f (g ∷ fs) behind h =
    rw (field_size_lem delimiter 0 f delimiter (joined delimiter g fs behind) h (ground arith)) (
      ap (λ t. ok (record { str = f ++ delimiter ∷ joined delimiter g fs behind; size = t }))
        (omega arith))

-- Incrementing goes to the next field.
increment_lem :
    (delimiter : ℕ) (f g : Bytes) (fs : List Bytes) (behind : Bytes)
    → IsField delimiter f
    → increment (at_fields delimiter f (g ∷ fs) behind) ≡ ok (at_fields delimiter g fs behind)
unfolding increment joined
increment_lem delimiter f g fs behind h =
    rw (skip_field_lem delimiter f delimiter (joined delimiter g fs behind) h (ground arith)) refl

increment_last :
    (delimiter : ℕ) (f behind : Bytes)
    → IsField delimiter f
    → increment (at_fields delimiter f [] behind)
      ≡ ok (record { str = behind; delimiter = delimiter })
unfolding increment joined
increment_last delimiter f behind h = rw (skip_field_lem delimiter f 0 behind h refl) refl

-- On a text of fields that has a field n, n increments of the split iterator and a dereference give the
-- view of field n.
pub deref-increment_by :
    (n delimiter : ℕ) (f : Bytes) (fs : List Bytes) (behind : Bytes)
    → IsField delimiter f
    → AreFields delimiter fs
    → n ≤ length fs
    → (rest : Bytes) × ((increment_by n (at_fields delimiter f fs behind) >>= deref)
        ≡ ok (record { str = get_or (f ∷ fs) n [] ++ rest; size = length (get_or (f ∷ fs) n []) }))
unfolding increment_by
deref-increment_by zero delimiter f [] behind h hs le =
    (0 ∷ behind, deref_lem delimiter f [] behind h ∙ unfold joined in refl)
deref-increment_by zero delimiter f (g ∷ fs) behind h hs le = (
  delimiter ∷ joined delimiter g fs behind,
  deref_lem delimiter f (g ∷ fs) behind h ∙ unfold joined in refl,
)
deref-increment_by (suc n) delimiter f [] behind h hs le = absurd (omega arith)
deref-increment_by (suc n) delimiter f (g ∷ fs) behind h hs le =
    let (rest, e) = deref-increment_by n delimiter g fs behind hs.0 hs.1 (omega arith) in
    (rest, rw (increment_lem delimiter f g fs behind h) e)

-- One increment for each field moves the iterator behind the terminator, where the comparison with
-- end() depends on the byte behind the text.
pub differs_from_end-overrun :
    (delimiter : ℕ) (f : Bytes) (fs : List Bytes) (c : ℕ) (behind : Bytes)
    → IsField delimiter f
    → AreFields delimiter fs
    → (increment_by (suc (length fs)) (at_fields delimiter f fs (c ∷ behind)) >>= differs_from_end)
      ≡ ok (not (c == 0))
unfolding increment_by
differs_from_end-overrun delimiter f [] c behind h hs =
    rw (increment_last delimiter f (c ∷ behind) h) (unfold differs_from_end in refl)
differs_from_end-overrun delimiter f (g ∷ fs) c behind h hs =
    rw (increment_lem delimiter f g fs (c ∷ behind) h)
      (differs_from_end-overrun delimiter g fs c behind hs.0 hs.1)
