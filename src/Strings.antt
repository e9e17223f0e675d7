-- ===== src/Strings.antt =====
-- String of kernel/src/util/storage.hh: a vector of bytes with a terminator behind the last one, which
-- `size` does not count. `in_place` is the heap's answer to a request to grow the block.

pub mod Blocks
pub mod Overruns
pub mod Laws
use neptun_os.Base.{
  ℕ, zero, suc, ◌+◌, ◌-◌, ◌%◌, Bool, true, false, List, Outcome, ok, fatal, ◌>>=◌, ◌==◌,
  if◌then◌else◌,
}
use neptun_os.Bits.{u64_mod}
use neptun_os.Text.{Bytes, peek, next, strlen}
use neptun_os.Vector.{Vector, fetch, store, reserve}
use neptun_os.Vector
use neptun_os.Vector.Whole.{empty, with_capacity}
use neptun_os.Vector.Whole

abbrev pub String : Type 0
String = Vector ℕ

-- `memcpy(&data[i], p, k)` from a C string, and from the block of another string
unfoldable pub copy_bytes : ℕ → (i : ℕ) → Bytes → String → Outcome String
copy_bytes zero i p s = ok s
copy_bytes (suc k) i p s = peek p >>= λ c. store i c s >>= copy_bytes k (i + 1) (next p)

unfoldable pub copy_block : ℕ → (i : ℕ) → (o s : String) → Outcome String
copy_block zero i o s = ok s
copy_block (suc k) i o s = fetch i o >>= λ c. store i c s >>= copy_block k (i + 1) o

unfoldable pub from_chars : (str : Bytes) → Outcome String
from_chars str = do
  n ← strlen str
  let s = record (with_capacity 1 (n + 1)) { size = n }
  s1 ← copy_bytes (n + 1) 0 str s
  store s1.size 0 s1

unfoldable pub substring : (str : Bytes) (len : ℕ) → Outcome String
substring str len = do
  let s : String = with_capacity 1 ((len + 1) % u64_mod)
  let s' = record s { size = (s.capacity + u64_mod - 1) % u64_mod }
  s1 ← copy_bytes s'.size 0 str s'
  store s1.size 0 s1

unfoldable pub resize : (in_place : Bool) → (to : ℕ) → String → Outcome String
resize in_place to s = do
  s1 ← Vector.resize 1 in_place 0 to s
  s2 ← reserve 1 in_place ((to + 1) % u64_mod) s1
  store s2.size 0 s2

unfoldable pub copy : (o : String) → Outcome String
copy o =
    if o.size == 0
    then ok empty
    else copy_block (o.size + 1) 0 o (record (with_capacity 1 o.size) { size = o.size })

-- The constructor from an rvalue hands its argument on as an lvalue, to the copy of the vector.
unfoldable pub move : (o : String) → Outcome String
move o = Vector.Whole.copy 1 o

unfoldable pub assign : (o : String) → String → Outcome String
assign o s =
    if o.size == 0
    then ok empty
    else copy_block (o.size + 1) 0 o (record (with_capacity 1 o.size) { size = o.size })

-- the new string, and what is left of the other
unfoldable pub move_assign : (o : String) → String → String × String
move_assign o s = (o, empty)

unfoldable pub append : (in_place : Bool) → Bytes → String → Outcome String
append in_place p s = do
  len ← strlen p
  s1 ← reserve 1 in_place ((s.size + len + 1) % u64_mod) s
  s2 ← copy_bytes len s1.size p s1
  store ((s2.size + len) % u64_mod) 0 (record s2 { size = (s2.size + len) % u64_mod })

unfoldable pub push_char : (in_place : Bool) → ℕ → String → Outcome String
push_char in_place c s = do
  s1 ← reserve 1 in_place ((s.size + 1) % u64_mod) s
  s2 ← store s1.size c s1
  let s3 = record s2 { size = (s1.size + 1) % u64_mod }
  store s3.size 0 s3
