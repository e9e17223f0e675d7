-- ===== src/Bits.antt =====
-- Bits of a machine word, for util/bitmap.hh and the macros of util/bits/arithmetic.hh: what `|`, `&`,
-- `^`, `~` and `1 << b` do to the single bit, at every width.
pub mod Fields
use Prim.Native.Nat.{digits, bit_and-bitwise, bit_or-bitwise, bit_xor-bitwise, differ}
use native.Mathlib.Nat.{le_refl, pow-suc, one-le-pow, mod-eq_of_lt, pow-le-pow_right}
use neptun_os.Base.{
  ℕ, zero, suc, ◌+◌, ◌-◌, ◌*◌, ◌/◌, ◌%◌, ◌^◌, ◌≤◌, ◌<◌, ◌≡◌, refl, ap, ◌∙◌, sym, Bool, true, false,
  ◌&&◌, ◌||◌, not, arith, bit_and, bit_or, bit_xor, min, max, ◌==◌, ltb, inl, inr, Bool-cases,
}

-- Bit `i` of `w`.
unfoldable pub testbit : ℕ → ℕ → Bool
testbit w zero = w % 2 == 1
testbit w (suc i) = testbit (w / 2) i

pub testbit-zero : (i : ℕ) → testbit 0 i ≡ false
unfolding testbit
testbit-zero zero = refl
testbit-zero (suc i) = testbit-zero i

-- A digit-wise operation acts on each bit, if it does so on one digit and where the left word ends.
module _ (z : ℕ → ℕ) (f : ℕ → ℕ → ℕ) (g : Bool → Bool → Bool)
    (on_rest : (b i : ℕ) → testbit (z b) i ≡ g false (testbit b i))
    (digit : (x y : ℕ) → f (x % 2) (y % 2) < 2)
    (on_digit : (x y : ℕ) → (f (x % 2) (y % 2) == 1) ≡ g (x % 2 == 1) (y % 2 == 1)) where
  testbit-digits :
      (n a b i : ℕ) → a ≤ n → testbit (digits z f n a b) i ≡ g (testbit a i) (testbit b i)
  unfolding testbit
  testbit-digits zero zero b i h = on_rest b i ∙ ap (λ t. g t (testbit b i)) (sym (testbit-zero i))
  testbit-digits zero (suc a) b i h = absurd (omega arith)
  testbit-digits (suc n) zero b i h =
      on_rest b i ∙ ap (λ t. g t (testbit b i)) (sym (testbit-zero i))
  testbit-digits (suc n) (suc a) b zero h = ap (λ t. t == 1) low ∙ on_digit (suc a) b
    where
      low :
          (digits z f n (suc a / 2) (b / 2) * 2 + f (suc a % 2) (b % 2)) % 2 ≡ f (suc a % 2) (b % 2)
      low = omega (arith, digit (suc a) b)
  testbit-digits (suc n) (suc a) b (suc i) h =
      ap (λ t. testbit t i) high ∙ testbit-digits n (suc a / 2) (b / 2) i (omega arith)
    where
      high :
          (digits z f n (suc a / 2) (b / 2) * 2 + f (suc a % 2) (b % 2)) / 2
          ≡ digits z f n (suc a / 2) (b / 2)
      high = omega (arith, digit (suc a) b)

pub testbit-or : (a b i : ℕ) → testbit (bit_or a b) i ≡ (testbit a i || testbit b i)
testbit-or a b i = rw bit_or-bitwise (
    testbit-digits (λ y. y) max ◌||◌ (λ b i. refl) (λ x y. omega arith) (λ x y. ground arith) a a b
      i (omega arith))

pub testbit-and : (a b i : ℕ) → testbit (bit_and a b) i ≡ (testbit a i && testbit b i)
testbit-and a b i = rw bit_and-bitwise (
    testbit-digits (λ y. 0) min ◌&&◌ (λ b i. testbit-zero i) (λ x y. omega arith)
      (λ x y. ground arith) a a b i (omega arith))

abbrev differs : Bool → Bool → Bool
differs true b = not b
differs false b = b

differ-lt : (u v : ℕ) → u < 2 → v < 2 → differ u v < 2
differ-lt zero v p q = q
differ-lt (suc zero) zero p q = omega arith
differ-lt (suc zero) (suc v) p q = omega arith
differ-lt (suc (suc u)) v p q = absurd (omega arith)

differ_test : (u v : ℕ) → u < 2 → v < 2 → (differ u v == 1) ≡ differs (u == 1) (v == 1)
differ_test zero v p q = refl
differ_test (suc zero) zero p q = refl
differ_test (suc zero) (suc zero) p q = refl
differ_test (suc zero) (suc (suc v)) p q = absurd (omega arith)
differ_test (suc (suc u)) v p q = absurd (omega arith)

pub testbit-xor : (a b i : ℕ) → testbit (bit_xor a b) i ≡ differs (testbit a i) (testbit b i)
testbit-xor a b i = rw bit_xor-bitwise (
    testbit-digits (λ y. y) differ differs (λ b i. refl)
      (λ x y. differ-lt (x % 2) (y % 2) (omega arith) (omega arith))
      (λ x y. differ_test (x % 2) (y % 2) (omega arith) (omega arith)) a a b i (omega arith))

-- `1 << b`
pub testbit-pow : (b i : ℕ) → testbit (2 ^ b) i ≡ (b == i)
unfolding testbit
testbit-pow zero zero = refl
testbit-pow zero (suc i) = testbit-zero i ∙ ground arith
testbit-pow (suc b) zero = ground (arith, pow-suc 2 b)
testbit-pow (suc b) (suc i) = ap (λ t. testbit t i) half ∙ testbit-pow b i ∙ ground arith
  where
    half : 2 ^ suc b / 2 ≡ 2 ^ b
    half = omega (arith, pow-suc 2 b)

-- a word of `k` ones
pub testbit-ones : (k i : ℕ) → testbit (2 ^ k - 1) i ≡ ltb i k
unfolding testbit
testbit-ones zero i = testbit-zero i ∙ ground arith
testbit-ones (suc k) zero = ground (arith, pow-suc 2 k, one-le-pow k 2)
testbit-ones (suc k) (suc i) = ap (λ t. testbit t i) half ∙ testbit-ones k i ∙ ground arith
  where
    half : (2 ^ suc k - 1) / 2 ≡ 2 ^ k - 1
    half = omega (arith, pow-suc 2 k, one-le-pow k 2)

abbrev pub u64_mod : ℕ
u64_mod = 2 ^ 64

abbrev pub u64_max : ℕ
u64_max = u64_mod - 1

-- `1ULL << b`
unfoldable pub bit_at : ℕ → ℕ
bit_at b = 2 ^ b % u64_mod

-- `~x`
unfoldable pub complement : ℕ → ℕ
complement x = bit_xor u64_max x

pub bit_at-pow : (b : ℕ) → b < 64 → bit_at b ≡ 2 ^ b
unfolding bit_at
bit_at-pow b h =
    mod-eq_of_lt
      (omega (arith, pow-le-pow_right {n = 2} (omega arith) {i = b} {j = 63} (omega arith)))

pub testbit-bit_at : (b i : ℕ) → b < 64 → testbit (bit_at b) i ≡ (b == i)
testbit-bit_at b i h = rw (bit_at-pow b h) (testbit-pow b i)

pub testbit-complement : (x i : ℕ) → i < 64 → testbit (complement x) i ≡ not (testbit x i)
unfolding complement
testbit-complement x i h = ground (arith, testbit-xor u64_max x i, testbit-ones 64 i)

-- A word without a set bit is 0.
eq-zero_of_bits : (n v : ℕ) → v ≤ n → ((i : ℕ) → testbit v i ≡ false) → v ≡ 0
unfolding testbit
eq-zero_of_bits zero v p h = omega arith
eq-zero_of_bits (suc n) v p h =
    let half : v / 2 ≡ 0 = eq-zero_of_bits n (v / 2) (omega arith) (λ i. h (suc i)) in
    ground (arith, h 0)

-- `w & (1ULL << b)` is non-zero exactly when bit `b` of `w` is set.
pub bit_and-bit_at : (w b : ℕ) → b < 64 → not (bit_and w (bit_at b) == 0) ≡ testbit w b
bit_and-bit_at w b h = elim (Bool-cases (testbit w b)) [
  | inl on ↦ elim (Bool-cases (bit_and w (bit_at b) == 0)) [
    | inl z ↦ absurd (clash on z)
    | inr nz ↦ rw (on, nz)
  ]
  | inr off ↦ rw (off, clear off)
]
  where
    at : (i : ℕ) → testbit (bit_and w (bit_at b)) i ≡ (testbit w i && (b == i))
    at i = testbit-and w (bit_at b) i ∙ ap (λ t. testbit w i && t) (testbit-bit_at b i h)

    clash : testbit w b ≡ true → (bit_and w (bit_at b) == 0) ≡ true → ⊥
    clash on z = ground (arith, at b, testbit-zero b)

    clear : testbit w b ≡ false → bit_and w (bit_at b) ≡ 0
    clear off = eq-zero_of_bits _ _ (le_refl _) (λ i. elim (Bool-cases (b == i)) [
      | inl e ↦ ground (arith, at i)
      | inr ne ↦ ground (arith, at i)
    ])
