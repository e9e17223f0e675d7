-- ===== src/Text/Number.antt =====
-- Reading numbers: `str_to_int` and `str_to_uint` of kernel/src/util/string.hh. A number is its pattern
-- of 64 bits. `str_to_int` adds up an i64, whose overflow C++ leaves undefined: it is `fatal` here.
pub mod Decimal
use neptun_os.Base.{
  ℕ, zero, suc, ◌+◌, ◌-◌, ◌*◌, ◌%◌, ◌^◌, Bool, true, false, ◌&&◌, ◌||◌, not, List, [], ◌∷◌, Outcome,
  ok, fatal, ◌>>=◌, leb, ltb, ◌==◌, if◌then◌else◌,
}
use neptun_os.Bits.{u64_mod}
use neptun_os.Text.{Bytes, peek, next, is_digit, is_letter, is_uppercase, is_lowercase}

-- one more than the largest i64
abbrev pub i64_limit : ℕ
i64_limit = 2 ^ 63

-- the test of the loop
unfoldable pub accepts : (base c : ℕ) → Bool
accepts base c = (leb base 10 && is_digit c) || (ltb 10 base && (is_letter c || is_digit c))

-- what one character adds
unfoldable pub digit : ℕ → ℕ
digit c =
    if is_uppercase c then c - b'A' + 10 else if is_lowercase c then c - b'a' + 10 else c - b'0'

-- the loop of `str_to_uint`
unfoldable pub digits_from : (base ret : ℕ) → Bytes → Outcome ℕ
digits_from base ret [] = fatal
digits_from base ret (c ∷ str) =
    let rest = digits_from base ((ret * base + digit c) % u64_mod) str in
    if accepts base c then rest else ok ret

-- the loop of `str_to_int`
unfoldable pub int_digits_from : (base ret : ℕ) → Bytes → Outcome ℕ
int_digits_from base ret [] = fatal
int_digits_from base ret (c ∷ str) =
    let rest = int_digits_from base (ret * base + digit c) str in
    if accepts base c
    then (if leb i64_limit (ret * base + digit c) then fatal else rest)
    else ok ret

-- `0x` switches to base 16.
unfoldable pub int_digits : (base : ℕ) → Bytes → Outcome ℕ
int_digits base str = peek str >>= λ c.
    if c == b'0'
    then (peek (next str) >>= λ d.
        if d == b'x' then int_digits_from 16 0 (next (next str)) else int_digits_from base 0 str)
    else int_digits_from base 0 str

unfoldable pub str_to_int : Bytes → (base : ℕ) → Outcome ℕ
str_to_int str base = peek str >>= λ c.
    if c == b'-'
    then (int_digits base (next str) >>= λ ret. ok ((u64_mod - ret) % u64_mod))
    else int_digits base str

-- the prefix of two characters that `str_to_uint` skips, and the base it stands for
unfoldable pub uint_digits : (base d : ℕ) → Bytes → Outcome ℕ
uint_digits base d str =
    if d == b'x'
    then digits_from 16 0 (next (next str))
    else if d == b'0'
    then digits_from 8 0 (next (next str))
    else if d == b'b'
    then digits_from 2 0 (next (next str))
    else digits_from base 0 str

-- `0x`, `00` and `0b` switch to base 16, 8 and 2.
unfoldable pub str_to_uint : Bytes → (base : ℕ) → Outcome ℕ
str_to_uint str base = peek str >>= λ c.
    if c == b'-'
    then fatal
    else if c == b'0'
    then (peek (next str) >>= λ d. uint_digits base d str)
    else digits_from base 0 str
