-- ===== src/Bits/Fields.antt =====
-- Words put together from a low and a high field: `|` of the two is a sum, and a mask of low ones is
-- a remainder.
use native.Mathlib.Nat.{pow-suc, one-le-pow, div-add-mod', mod-lt}
use neptun_os.Base.{
  ℕ, zero, suc, ◌+◌, ◌-◌, ◌*◌, ◌/◌, ◌%◌, ◌^◌, ◌≤◌, ◌<◌, ◌≡◌, ap, ◌∙◌, sym, false, ◌||◌, arith,
  bit_and, bit_or, ltb, inl, inr, Bool-cases, ltb→lt, ltb→le,
}
use neptun_os.Bits.{testbit, testbit-zero, testbit-or, testbit-and, testbit-ones}

-- Words with the same bits are equal.
eq_of_bits_fuel : (n a b : ℕ) → a ≤ n → b ≤ n → ((i : ℕ) → testbit a i ≡ testbit b i) → a ≡ b
unfolding testbit
eq_of_bits_fuel zero a b p q h = omega arith
eq_of_bits_fuel (suc n) a b p q h =
    let half : a / 2 ≡ b / 2 =
      eq_of_bits_fuel n (a / 2) (b / 2) (omega arith) (omega arith) (λ i. h (suc i)) in
    let low : a % 2 ≡ b % 2 = ground (arith, h 0) in omega arith

pub eq_of_bits : (a b : ℕ) → ((i : ℕ) → testbit a i ≡ testbit b i) → a ≡ b
eq_of_bits a b h = eq_of_bits_fuel (a + b) a b (omega arith) (omega arith) h

-- One place more doubles a field.
double_field : (k field : ℕ) → 2 * (field * 2 ^ k) ≡ field * 2 ^ suc k
double_field k field =
    let power : 2 ^ suc k ≡ 2 * 2 ^ k = omega (arith, pow-suc 2 k) in
    omega (arith, ap (λ (t : ℕ). field * t) power)

testbit-field :
    (k q a i : ℕ) → a < 2 ^ k → testbit (a + q * 2 ^ k) i ≡ (testbit a i || testbit (q * 2 ^ k) i)
unfolding testbit
testbit-field zero q a i h =
    let none_low : a ≡ 0 = omega arith in
    rw (none_low, testbit-zero) (ap (λ t. testbit t i) (omega arith))
testbit-field (suc k) q a zero h = ground (arith, double_field k q)
testbit-field (suc k) q a (suc i) h =
    ap (λ t. testbit t i) sum
    ∙ testbit-field k q (a / 2) i small
    ∙ ap (λ t. testbit (a / 2) i || testbit t i) high
  where
    small : a / 2 < 2 ^ k
    small = omega (arith, pow-suc 2 k)

    sum : (a + q * 2 ^ suc k) / 2 ≡ a / 2 + q * 2 ^ k
    sum = omega (arith, double_field k q)

    high : q * 2 ^ k ≡ q * 2 ^ suc k / 2
    high = omega (arith, double_field k q)

-- `low | (q << k)` is a sum when `low` fits `k` bits.
pub bit_or_fields : (k q a : ℕ) → a < 2 ^ k → bit_or a (q * 2 ^ k) ≡ a + q * 2 ^ k
bit_or_fields k q a h =
    eq_of_bits _ _ λ i. testbit-or a (q * 2 ^ k) i ∙ sym (testbit-field k q a i h)

testbit-high : (k q i : ℕ) → i < k → testbit (q * 2 ^ k) i ≡ false
unfolding testbit
testbit-high zero q i h = absurd (omega arith)
testbit-high (suc k) q zero h = ground (arith, double_field k q)
testbit-high (suc k) q (suc i) h = ap (λ t. testbit t i) half ∙ testbit-high k q i (omega arith)
  where
    half : q * 2 ^ suc k / 2 ≡ q * 2 ^ k
    half = omega (arith, double_field k q)

pub testbit-small : (k a i : ℕ) → a < 2 ^ k → k ≤ i → testbit a i ≡ false
unfolding testbit
testbit-small zero a i h p =
    let none_low : a ≡ 0 = omega arith in ap (λ t. testbit t i) none_low ∙ testbit-zero i
testbit-small (suc k) a zero h p = absurd (omega arith)
testbit-small (suc k) a (suc i) h p =
    testbit-small k (a / 2) i (omega (arith, pow-suc 2 k)) (omega arith)

-- `a & (2 ^ k - 1)` is the remainder by `2 ^ k`.
pub bit_and_mask : (k a : ℕ) → bit_and a (2 ^ k - 1) ≡ a % 2 ^ k
bit_and_mask k a = eq_of_bits _ _ λ i. testbit-and a (2 ^ k - 1) i ∙ elim (Bool-cases (ltb i k)) [
  | inl below ↦
      rw (testbit-ones, below)
        (ground (arith, split i, testbit-high k (a / 2 ^ k) i (ltb→lt _ _ below)))
  | inr above ↦
      rw (testbit-ones, above)
        (ground (arith, testbit-small k (a % 2 ^ k) i small (ltb→le _ _ above)))
]
  where
    small : a % 2 ^ k < 2 ^ k
    small = mod-lt a (one-le-pow k 2 (omega arith))

    whole : a ≡ a % 2 ^ k + a / 2 ^ k * 2 ^ k
    whole = omega (arith, div-add-mod' a (2 ^ k))

    split : (i : ℕ) → testbit a i ≡ (testbit (a % 2 ^ k) i || testbit (a / 2 ^ k * 2 ^ k) i)
    split i = ap (λ t. testbit t i) whole ∙ testbit-field k (a / 2 ^ k) (a % 2 ^ k) i small
