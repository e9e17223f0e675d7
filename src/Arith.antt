-- ===== src/Arith.antt =====
-- kernel/src/util/bits/arithmetic.hh on u64 operands: the alignment macros, `VIRTUAL` and `PHYSICAL`,
-- and the unit shifts, whose literal operands are ints.
pub mod Laws
use neptun_os.Base.{ℕ, ◌+◌, ◌-◌, ◌*◌, ◌/◌, ◌%◌, ◌^◌, Bool, bit_and, bit_or, ◌==◌}
use neptun_os.Bits.{u64_mod, complement}

-- `align(x, a)`: the sum and the product wrap.
unfoldable pub align : ℕ → ℕ → ℕ
align x a = (x + (a - 1)) % u64_mod / a * a % u64_mod

unfoldable pub align_down : ℕ → ℕ → ℕ
align_down x a = x / a * a

unfoldable pub isaligned : ℕ → ℕ → Bool
isaligned x a = x % a == 0

-- Start of the higher half, where all physical memory is mapped.
abbrev pub higher_half : ℕ
higher_half = 0xffff800000000000

unfoldable pub virtual_address : ℕ → ℕ
virtual_address addr = bit_or addr higher_half

unfoldable pub physical_address : ℕ → ℕ
physical_address addr = bit_and addr (complement higher_half)

-- `x << k` of an int literal: the result is an int of 32 bits.
unfoldable pub shl_int : ℕ → ℕ → ℕ
shl_int x k = x * 2 ^ k % 2 ^ 32

unfoldable pub mibs2bytes : ℕ → ℕ
unfolding shl_int
mibs2bytes mibs = shl_int mibs 20

unfoldable pub gibs2bytes : ℕ → ℕ
unfolding shl_int
gibs2bytes gibs = shl_int gibs 30
