-- ===== src/Text/Number/Decimal.antt =====
-- Reading back a number that is written in decimal.
use neptun_os.Base.{
  ℕ, zero, suc, ◌+◌, ◌-◌, ◌*◌, ◌/◌, ◌%◌, ◌≤◌, ◌<◌, ◌≡◌, ◌≢◌, refl, ◌∙◌, ap, true, [], ◌∷◌, ◌++◌, ok,
  arith, leb, false, ltb, if◌then◌else◌, inl, inr, Bool-cases, ltb→le, ltb→lt,
}
use neptun_os.Text.{Bytes, is_digit, is_uppercase, is_lowercase}
use neptun_os.Text.Number.{accepts, digit, i64_limit, int_digits_from, int_digits, str_to_int}

-- A number in decimal: the digits of `n / 10`, then that of `n % 10`.
unfoldable pub decimal_fuel : (fuel n : ℕ) → Bytes
decimal_fuel zero n = []
decimal_fuel (suc fuel) n =
    let front = decimal_fuel fuel (n / 10) in
    if ltb n 10 then (b'0' + n) ∷ [] else front ++ (b'0' + n % 10) ∷ []

pub decimal : ℕ → Bytes
decimal n = decimal_fuel (suc n) n

-- the value of digits behind the value `ret`, with no bound
unfoldable pub horner : (ret : ℕ) → Bytes → ℕ
horner ret [] = ret
horner ret (c ∷ s) = horner (ret * 10 + (c - b'0')) s

horner-append :
    (ret : ℕ) (s : Bytes) (c : ℕ) → horner ret (s ++ c ∷ []) ≡ horner ret s * 10 + (c - b'0')
unfolding horner
horner-append ret [] c = refl
horner-append ret (d ∷ s) c = horner-append (ret * 10 + (d - b'0')) s c

horner-decimal_fuel : (fuel n : ℕ) → n < fuel → horner 0 (decimal_fuel fuel n) ≡ n
unfolding decimal_fuel
horner-decimal_fuel zero n h = absurd (omega arith)
horner-decimal_fuel (suc fuel) n h = elim (Bool-cases (ltb n 10)) [
  | inl one ↦ rw one (unfold horner in omega arith)
  | inr more ↦
      rw (more, horner-append 0 (decimal_fuel fuel (n / 10)) (b'0' + n % 10))
        (omega (arith, horner-decimal_fuel fuel (n / 10) (omega (arith, ltb→le _ _ more))))
]

le-horner : (ret : ℕ) (s : Bytes) → ret ≤ horner ret s
unfolding horner
le-horner ret [] = omega arith
le-horner ret (c ∷ s) = omega (arith, le-horner (ret * 10 + (c - b'0')) s)

abbrev AreDigits : Bytes → Type 0
AreDigits [] = Unit
AreDigits (c ∷ s) = (b'0' ≤ c) × (c ≤ b'9') × AreDigits s

AreDigits-append : (s : Bytes) (c : ℕ) → AreDigits s → b'0' ≤ c → c ≤ b'9' → AreDigits (s ++ c ∷ [])
AreDigits-append [] c h p q = (p, q, tt)
AreDigits-append (d ∷ s) c (a, b, h) p q = (a, b, AreDigits-append s c h p q)

decimal_fuel-AreDigits : (fuel n : ℕ) → AreDigits (decimal_fuel fuel n)
unfolding decimal_fuel
decimal_fuel-AreDigits zero n = tt
decimal_fuel-AreDigits (suc fuel) n = elim (Bool-cases (ltb n 10)) [
  | inl one ↦ rw one (omega arith, omega (arith, ltb→lt n 10 one), tt)
  | inr more ↦
      rw more
        (AreDigits-append _ _ (decimal_fuel-AreDigits fuel (n / 10)) (omega arith) (omega arith))
]

digit_step : (c : ℕ) → b'0' ≤ c → c ≤ b'9' → (digit c ≡ c - b'0') × (accepts 10 c ≡ true)
unfolding digit accepts is_digit is_uppercase is_lowercase
digit_step c p q = ground arith

int_digits_from_lem :
    (ret : ℕ) (s behind : Bytes)
    → AreDigits s
    → horner ret s < i64_limit
    → int_digits_from 10 ret (s ++ 0 ∷ behind) ≡ ok (horner ret s)
unfolding int_digits_from horner
int_digits_from_lem ret [] behind h fits = unfold accepts is_digit in refl
int_digits_from_lem ret (c ∷ s) behind (p, q, h) fits =
    let (value, taken) = digit_step c p q in
    let inside : leb i64_limit (ret * 10 + (c - b'0')) ≡ false =
      ground (arith, le-horner (ret * 10 + (c - b'0')) s, fits) in
    rw (taken, value, inside) (int_digits_from_lem (ret * 10 + (c - b'0')) s behind h fits)

-- What `int_digits` reads at the start of decimal digits.
int_digits_lem :
    (s behind : Bytes)
    → AreDigits s
    → s ≢ []
    → int_digits 10 (s ++ 0 ∷ behind) ≡ int_digits_from 10 0 (s ++ 0 ∷ behind)
unfolding int_digits
int_digits_lem [] behind h ne = absurd (ne refl)
int_digits_lem (c ∷ []) behind (p, q, h) ne = ground arith
int_digits_lem (c ∷ d ∷ s) behind (p, q, (r, t, h)) ne = ground arith

append-ne-nil : (s : Bytes) (c : ℕ) → s ++ c ∷ [] ≢ []
append-ne-nil [] c e = absurd (ground (arith, e))
append-ne-nil (d ∷ s) c e = absurd (ground (arith, e))

decimal_fuel-ne-nil : (fuel n : ℕ) → decimal_fuel (suc fuel) n ≢ []
unfolding decimal_fuel
decimal_fuel-ne-nil fuel n = elim (Bool-cases (ltb n 10)) [
  | inl one ↦ rw one (append-ne-nil [] (b'0' + n))
  | inr more ↦ rw more (append-ne-nil (decimal_fuel fuel (n / 10)) (b'0' + n % 10))
]

str_to_int_lem :
    (s behind : Bytes)
    → AreDigits s
    → s ≢ []
    → str_to_int (s ++ 0 ∷ behind) 10 ≡ int_digits 10 (s ++ 0 ∷ behind)
unfolding str_to_int
str_to_int_lem [] behind h ne = absurd (ne refl)
str_to_int_lem (c ∷ s) behind (p, q, h) ne = ground arith

-- str_to_int in base 10 reads back the decimal digits of every number below 2^63.
pub str_to_int-decimal :
    (n : ℕ) (behind : Bytes) → n < i64_limit → str_to_int (decimal n ++ 0 ∷ behind) 10 ≡ ok n
unfolding decimal
str_to_int-decimal n behind fits =
    let s : Bytes = decimal_fuel (suc n) n in
    let digits : AreDigits s = decimal_fuel-AreDigits (suc n) n in
    let some_digit : s ≢ [] = decimal_fuel-ne-nil n n in
    let value : horner 0 s ≡ n = horner-decimal_fuel (suc n) n (omega arith) in
    str_to_int_lem s behind digits some_digit
    ∙ int_digits_lem s behind digits some_digit
    ∙ int_digits_from_lem 0 s behind digits (omega (arith, value))
    ∙ ap ok value
