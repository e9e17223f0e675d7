-- ===== src/Text/Copy.antt =====
-- `strcpy` and `strcat`, on memory where source and destination do not overlap.
use neptun_os.Base.{
  ℕ, zero, suc, ◌+◌, ◌%◌, ◌^◌, ◌≤◌, ◌<◌, ◌≡◌, refl, ◌∙◌, ap, false, [], ◌∷◌, ◌++◌, ok, fatal, arith,
  ◌==◌, length,
}
use neptun_os.Text.{Bytes, strcpy_from, strcpy, append_at, strcat}
use neptun_os.Text.Compare.{NoZero, c_string}

-- What is left of the destination behind the first `n` bytes.
unfoldable pub drop : ℕ → Bytes → Bytes
drop zero b = b
drop (suc n) [] = []
drop (suc n) (c ∷ b) = drop n b

strcpy_from_lem :
    (len : ℕ) (s behind dest : Bytes)
    → NoZero s
    → length s < length dest
    → len + length s < 2 ^ 32
    → strcpy_from len (c_string s behind) dest
      ≡ ok (len + length s, c_string s (drop (suc (length s)) dest))
unfolding strcpy_from drop
strcpy_from_lem len s behind [] n h fits = absurd (omega arith)
strcpy_from_lem len [] behind (d ∷ dest) n h fits = ap (λ t. ok (t, 0 ∷ dest)) (omega arith)
strcpy_from_lem len (c ∷ s) behind (d ∷ dest) n h fits =
    let wrap : (len + 1) % 2 ^ 32 ≡ len + 1 = omega arith in
    let zero_test : (c == 0) ≡ false = ground (arith, n.0) in
    rw (wrap, zero_test, strcpy_from_lem (len + 1) s behind dest n.1 (omega arith) (omega arith))
      (ap (λ t. ok (t, c ∷ c_string s (drop (suc (length s)) dest))) (omega arith))

-- Into a destination with room, strcpy copies a string of less than 2^32 bytes with its terminator,
-- leaves the bytes behind, and returns the length.
pub strcpy_lem :
    (s behind dest : Bytes)
    → NoZero s
    → length s < length dest
    → length s < 2 ^ 32
    → strcpy (c_string s behind) dest ≡ ok (length s, c_string s (drop (suc (length s)) dest))
unfolding strcpy
strcpy_lem s behind dest n h fits =
    strcpy_from_lem 0 s behind dest n h (omega arith)
    ∙ ap (λ t. ok (t, c_string s (drop (suc (length s)) dest))) (omega arith)

-- A destination without room for the terminator is overrun.
pub strcpy-overrun :
    (len : ℕ) (s behind dest : Bytes)
    → NoZero s
    → length dest ≤ length s
    → strcpy_from len (c_string s behind) dest ≡ fatal
unfolding strcpy_from
strcpy-overrun len [] behind [] n h = refl
strcpy-overrun len (c ∷ s) behind [] n h = refl
strcpy-overrun len [] behind (d ∷ dest) n h = absurd (omega arith)
strcpy-overrun len (c ∷ s) behind (d ∷ dest) n h =
    ground (arith, strcpy-overrun ((len + 1) % 2 ^ 32) s behind dest n.1 (omega arith))

append_at_lem :
    (s behind dest : Bytes)
    → NoZero s
    → length s < length dest
    → append_at dest (c_string s behind) ≡ ok (c_string s (drop (suc (length s)) dest))
unfolding append_at drop
append_at_lem s behind [] n h = absurd (omega arith)
append_at_lem [] behind (d ∷ dest) n h = refl
append_at_lem (c ∷ s) behind (d ∷ dest) n h =
    ground (arith, append_at_lem s behind dest n.1 (omega arith))

-- With enough bytes behind the string in the destination, strcat makes it the concatenation of the two
-- strings.
pub strcat_lem :
    (a s behind room : Bytes)
    → NoZero a
    → NoZero s
    → length s ≤ length room
    → strcat (c_string a room) (c_string s behind) ≡ ok (a ++ c_string s (drop (length s) room))
unfolding strcat
strcat_lem [] s behind room n m h =
    append_at_lem s behind (0 ∷ room) m (omega arith) ∙ unfold drop in refl
strcat_lem (c ∷ a) s behind room n m h = ground (arith, strcat_lem a s behind room n.1 m h)
