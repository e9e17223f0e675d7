-- ===== src/Arith/Laws.antt =====
-- Laws of the alignment macros and of the two address translations.
use neptun_os.Base.{ℕ, ◌+◌, ◌-◌, ◌*◌, ◌/◌, ◌%◌, ◌^◌, ◌≤◌, ◌<◌, ◌≡◌, ◌∙◌, true, arith}
use native.Mathlib.Nat.{
  mod-eq_of_lt, div-mul-le_self, mul-mod_left, div-add-mod', mod-lt, lt-div-mul-add,
  mul-add-div_right, div-eq_of_lt,
}
use neptun_os.Bits.{u64_mod, complement}
use neptun_os.Bits.Fields.{bit_or_fields, bit_and_mask}
use neptun_os.Arith.{align, align_down, isaligned, virtual_address, physical_address, higher_half}

-- For a positive alignment and a sum that fits 64 bits, align returns the least multiple of the
-- alignment that is not below the value.
pub align_bounds :
    (x a : ℕ)
    → 0 < a
    → x + a ≤ u64_mod
    → (align x a % a ≡ 0) × (x ≤ align x a) × (align x a < x + a)
unfolding align
align_bounds x a pos fits =
    let small : x + (a - 1) < u64_mod = omega arith in
    let whole : (x + (a - 1)) / a * a ≤ x + (a - 1) = div-mul-le_self (x + (a - 1)) a in
    let plain : align x a ≡ (x + (a - 1)) / a * a =
      rw (mod-eq_of_lt small) (mod-eq_of_lt (omega arith)) in
    (
      rw plain (mul-mod_left ((x + (a - 1)) / a) a),
      rw plain (omega (arith, div-add-mod' (x + (a - 1)) a, mod-lt (x + (a - 1)) pos)),
      rw plain (omega arith),
    )

-- An aligned value is left alone.
pub align_of_aligned : (x a : ℕ) → 0 < a → x + a ≤ u64_mod → isaligned x a ≡ true → align x a ≡ x
unfolding align isaligned
align_of_aligned x a pos fits h =
    let exact : x / a * a ≡ x = ground (arith, div-add-mod' x a) in
    let quotient : (x + (a - 1)) / a ≡ x / a = rw (← exact) (
      mul-add-div_right pos (x / a) (a - 1)
      ∙ rw (div-eq_of_lt {n = a - 1} {m = a} (omega arith), exact) (omega arith)) in
    rw (mod-eq_of_lt {n = x + (a - 1)} {m = u64_mod} (omega arith), quotient, exact)
      (mod-eq_of_lt (omega arith))

-- Both macros agree with their test.
pub isaligned-align : (x a : ℕ) → 0 < a → x + a ≤ u64_mod → isaligned (align x a) a ≡ true
unfolding isaligned
isaligned-align x a pos fits = ground (arith, align_bounds x a pos fits)

pub align_down_bounds :
    (x a : ℕ) → 0 < a → (align_down x a % a ≡ 0) × (align_down x a ≤ x) × (x < align_down x a + a)
unfolding align_down
align_down_bounds x a pos =
    (mul-mod_left (x / a) a, div-mul-le_self x a, lt-div-mul-add {a = x} pos)

-- VIRTUAL of an address of the lower half is its mirror in the higher half.
pub virtual_address-add : (a : ℕ) → a < 2 ^ 47 → virtual_address a ≡ a + higher_half
unfolding virtual_address
virtual_address-add a h = bit_or_fields 47 (2 ^ 17 - 1) a h

-- PHYSICAL keeps the low 47 bits.
pub physical_address-mod : (a : ℕ) → physical_address a ≡ a % 2 ^ 47
unfolding physical_address complement
physical_address-mod a = bit_and_mask 47 a

-- PHYSICAL undoes VIRTUAL on addresses below 2^47.
pub physical_address-virtual_address :
    (a : ℕ) → a < 2 ^ 47 → physical_address (virtual_address a) ≡ a
physical_address-virtual_address a h =
    physical_address-mod (virtual_address a) ∙ rw (virtual_address-add a h) (omega arith)
