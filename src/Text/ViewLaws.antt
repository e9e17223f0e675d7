-- ===== src/Text/ViewLaws.antt =====
-- Tests of a view against a C string.
use neptun_os.Base.{
  suc, ◌-◌, ◌%◌, ◌≤◌, ◌<◌, ◌≡◌, refl, ◌∙◌, Bool, ◌&&◌, [], ◌∷◌, ◌++◌, ok, arith, leb, ltb, ◌==◌,
  if◌then◌else◌, length, inl, inr, Bool-cases, ltb→le,
}
use neptun_os.Text.{Bytes}
use neptun_os.Text.View.{
  StringView, equals_from, equals, starts_with_from, starts_with, advance, same_bytes, ends_with,
}
use neptun_os.Text.Compare.{NoZero, c_string, same, is_prefix, strlen_lem}

-- the view of the bytes `v`, with `behind` behind them
abbrev pub view : Bytes → Bytes → StringView
view v behind = record { str = v ++ behind; size = length v }

equals_from_lem :
    (v behind b behind' : Bytes)
    → NoZero v
    → NoZero b
    → equals_from (length v) (v ++ behind) (c_string b behind') ≡ ok (same v b)
unfolding equals_from same
equals_from_lem [] behind [] behind' n m = refl
equals_from_lem [] behind (d ∷ b) behind' n m = ground arith
equals_from_lem (c ∷ v) behind [] behind' n m = ground arith
equals_from_lem (c ∷ v) behind (d ∷ b) behind' n m =
    ground (arith, equals_from_lem v behind b behind' n.1 m.1)

-- A view of bytes that are not 0 equals a C string exactly if their bytes are the same.
pub equals_lem :
    (v behind b behind' : Bytes)
    → NoZero v
    → NoZero b
    → equals (view v behind) (c_string b behind') ≡ ok (same v b)
unfolding equals
equals_lem v behind b behind' n m = equals_from_lem v behind b behind' n m

starts_with_from_lem :
    (v behind s behind' : Bytes)
    → NoZero s
    → starts_with_from (length v) (v ++ behind) (c_string s behind') ≡ ok (is_prefix s v)
unfolding starts_with_from is_prefix
starts_with_from_lem [] behind [] behind' n = refl
starts_with_from_lem [] behind (d ∷ s) behind' n = ground arith
starts_with_from_lem (c ∷ v) behind [] behind' n = refl
starts_with_from_lem (c ∷ v) behind (d ∷ s) behind' n =
    ground (arith, starts_with_from_lem v behind s behind' n.1)

-- starts_with holds exactly if the bytes of the C string are a prefix of those of the view.
pub starts_with_lem :
    (v behind s behind' : Bytes)
    → NoZero s
    → starts_with (view v behind) (c_string s behind') ≡ ok (is_prefix s v)
unfolding starts_with
starts_with_lem v behind s behind' n = starts_with_from_lem v behind s behind' n

-- The last bytes of `v`, as many as `s` has, are those of `s`.
unfoldable pub is_suffix : Bytes → Bytes → Bool
unfolding same
is_suffix s [] = same [] s
is_suffix s (c ∷ v) = if length (c ∷ v) == length s then same (c ∷ v) s else is_suffix s v

same_bytes_lem :
    (v behind s behind' : Bytes)
    → length v ≡ length s
    → same_bytes (length s) (v ++ behind) (s ++ behind') ≡ ok (same v s)
unfolding same_bytes same
same_bytes_lem [] behind [] behind' e = refl
same_bytes_lem [] behind (d ∷ s) behind' e = absurd (omega arith)
same_bytes_lem (c ∷ v) behind [] behind' e = absurd (omega arith)
same_bytes_lem (c ∷ v) behind (d ∷ s) behind' e =
    ground (arith, same_bytes_lem v behind s behind' (omega arith))

suffix_at :
    (v behind s behind' : Bytes)
    → length s ≤ length v
    → same_bytes (length s) (advance (length v - length s) (v ++ behind)) (c_string s behind')
      ≡ ok (is_suffix s v)
unfolding advance is_suffix
suffix_at [] behind [] behind' h = unfold same_bytes same in refl
suffix_at [] behind (d ∷ s) behind' h = absurd (omega arith)
suffix_at (c ∷ v) behind s behind' h = elim (Bool-cases (suc (length v) == length s)) [
  | inl e ↦
      let here : suc (length v) - length s ≡ 0 = ground arith in
      rw (here, e) (same_bytes_lem (c ∷ v) behind s (0 ∷ behind') (ground arith))
  | inr e ↦
      let further : suc (length v) - length s ≡ suc (length v - length s) = ground arith in
      rw (further, e) (suffix_at v behind s behind' (ground arith))
]

-- For a C string of less than 256 bytes, ends_with holds exactly if its bytes are a suffix of those of
-- the view.
pub ends_with_lem :
    (v behind s behind' : Bytes)
    → NoZero s
    → length s < 256
    → ends_with (view v behind) (c_string s behind')
      ≡ ok (leb (length s) (length v) && is_suffix s v)
unfolding ends_with
ends_with_lem v behind s behind' n short =
    let size : length s % 256 ≡ length s = omega arith in
    rw (strlen_lem s behind' n, size)
      (elim (Bool-cases (ltb (length v) (length s))) [
        | inl less ↦ ground arith
        | inr more ↦ rw more (suffix_at v behind s behind' (ltb→le _ _ more) ∙ ground arith)
      ])
