-- ===== src/Tests/OnText.antt =====
-- Strings, views, fields and numbers of Text.
use neptun_os.Base.{◌≡◌, refl, [], ◌∷◌, ◌++◌, ok, ◌>>=◌, arith, length, get_or}
use neptun_os.Text.{Bytes, is_digit, is_letter, is_uppercase, is_lowercase}
use neptun_os.Text.View.{deref, increment_by}
use neptun_os.Text.Compare.{NoZero}
use neptun_os.Text.Split.{IsField, AreFields, at_fields, deref-increment_by}
use neptun_os.Text.Number.{
  accepts, digit, digits_from, int_digits, int_digits_from, str_to_int, uint_digits, str_to_uint,
}
use neptun_os.Text.Number.Decimal.{decimal, str_to_int-decimal}

abbrev ab : Bytes
ab = b'a' ∷ b'b' ∷ []

abbrev abc : Bytes
abc = b'a' ∷ b'b' ∷ b'c' ∷ []

abbrev bc : Bytes
bc = b'b' ∷ b'c' ∷ []

abbrev room : Bytes
room = 1 ∷ 2 ∷ 3 ∷ 4 ∷ []

ab-NoZero : NoZero ab
ab-NoZero = (omega arith, (omega arith, tt))

bc-NoZero : NoZero bc
bc-NoZero = (omega arith, (omega arith, tt))

abc-NoZero : NoZero abc
abc-NoZero = (omega arith, bc-NoZero)

ab-IsField : IsField b'/' ab
ab-IsField = (omega arith, omega arith, (omega arith, omega arith, tt))

bc-AreFields : AreFields b'/' (bc ∷ [])
bc-AreFields = ((omega arith, omega arith, (omega arith, omega arith, tt)), tt)

hexadecimal : str_to_int (b'0' ∷ b'x' ∷ b'f' ∷ b'F' ∷ 0 ∷ []) 10 ≡ ok 255
unfolding str_to_int int_digits int_digits_from accepts digit is_digit is_letter is_uppercase
    is_lowercase
hexadecimal = refl

binary : str_to_uint (b'0' ∷ b'b' ∷ b'1' ∷ b'1' ∷ 0 ∷ []) 10 ≡ ok 3
unfolding str_to_uint uint_digits digits_from accepts digit is_digit is_letter is_uppercase
    is_lowercase
binary = refl

deref-increment_by_example :
    (rest : Bytes) × ((increment_by 1 (at_fields b'/' ab (bc ∷ []) []) >>= deref)
      ≡ ok (record {
        str = get_or (ab ∷ bc ∷ []) 1 [] ++ rest;
        size = length (get_or (ab ∷ bc ∷ []) 1 []);
      }))
deref-increment_by_example =
    deref-increment_by 1 b'/' ab (bc ∷ []) [] ab-IsField bc-AreFields (omega arith)

str_to_int-decimal_example : str_to_int (decimal 1024 ++ 0 ∷ bc) 10 ≡ ok 1024
str_to_int-decimal_example = str_to_int-decimal 1024 bc (omega arith)
