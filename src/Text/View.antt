-- ===== src/Text/View.antt =====
-- StringView and StringSplitIterator of kernel/src/util/storage.hh.
use neptun_os.Base.{
  ℕ, zero, suc, ◌+◌, ◌-◌, Bool, true, false, ◌&&◌, not, [], ◌∷◌, Outcome, ok, fatal, ◌>>=◌, ltb,
  ◌==◌, if◌then◌else◌,
}
use neptun_os.Text.{Bytes, peek, next, strlen}

pub record StringView : Type 0 where
  pub str : Bytes
  pub size : ℕ

-- The loop of `operator==`, with the rounds left, and the test of the terminator behind it.
unfoldable pub equals_from : (rounds : ℕ) → Bytes → Bytes → Outcome Bool
equals_from zero str rhs = peek rhs >>= λ c. ok (c == 0)
equals_from (suc k) str [] = fatal
equals_from (suc k) [] (d ∷ rhs) = fatal
equals_from (suc k) (c ∷ str) (d ∷ rhs) =
    let rest = equals_from k str rhs in if not (d == c) then ok false else rest

unfoldable pub equals : StringView → Bytes → Outcome Bool
equals v rhs = equals_from v.size v.str rhs

-- The loop of `starts_with`, with the bytes of the view that are left.
unfoldable pub starts_with_from : (rounds : ℕ) → Bytes → Bytes → Outcome Bool
starts_with_from zero str s = peek s >>= λ d. ok (d == 0)
starts_with_from (suc k) str [] = fatal
starts_with_from (suc k) [] (d ∷ s) = if d == 0 then ok true else fatal
starts_with_from (suc k) (c ∷ str) (d ∷ s) =
    let rest = starts_with_from k str s in
    if d == 0 then ok true else if not (d == c) then ok false else rest

unfoldable pub starts_with : StringView → Bytes → Outcome Bool
starts_with v s = starts_with_from v.size v.str s

-- `p + n`
unfoldable pub advance : ℕ → Bytes → Bytes
advance zero p = p
advance (suc n) p = advance n (next p)

-- The loop of `ends_with`: the next `rounds` bytes of both are the same.
unfoldable pub same_bytes : (rounds : ℕ) → Bytes → Bytes → Outcome Bool
same_bytes zero str s = ok true
same_bytes (suc k) [] s = fatal
same_bytes (suc k) (c ∷ str) [] = fatal
same_bytes (suc k) (c ∷ str) (d ∷ s) =
    let rest = same_bytes k str s in if not (c == d) then ok false else rest

unfoldable pub ends_with : StringView → Bytes → Outcome Bool
ends_with v s = do
  s_size ← strlen s
  if ltb v.size s_size then ok false else same_bytes s_size (advance (v.size - s_size) v.str) s

pub record StringSplitIterator : Type 0 where
  pub str : Bytes
  pub delimiter : ℕ

-- `operator*`: the length of the field, counted from `i` on.
unfoldable pub field_size : (delimiter i : ℕ) → Bytes → Outcome ℕ
field_size delimiter i [] = fatal
field_size delimiter i (c ∷ str) =
    let rest = field_size delimiter (i + 1) str in
    if not (c == 0) && not (c == delimiter) then rest else ok i

unfoldable pub deref : StringSplitIterator → Outcome StringView
deref it = field_size it.delimiter 0 it.str >>= λ i. ok (record { str = it.str; size = i })

-- `operator++`: to the delimiter or the terminator, and one byte further.
unfoldable pub skip_field : (delimiter : ℕ) → Bytes → Outcome Bytes
skip_field delimiter [] = fatal
skip_field delimiter (c ∷ str) =
    let rest = skip_field delimiter str in
    if not (c == 0) && not (c == delimiter) then rest else ok str

unfoldable pub increment : StringSplitIterator → Outcome StringSplitIterator
increment it = skip_field it.delimiter it.str >>= λ str. ok (record it { str = str })

-- `operator+=`: `while (times--) ++(*this);`
unfoldable pub increment_by : (times : ℕ) → StringSplitIterator → Outcome StringSplitIterator
increment_by zero it = ok it
increment_by (suc times) it = increment it >>= increment_by times

-- `operator!=` against `end()`, which points at a terminator.
unfoldable pub differs_from_end : StringSplitIterator → Outcome Bool
differs_from_end it = peek it.str >>= λ c. ok (not (c == 0))
