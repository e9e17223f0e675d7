-- ===== src/Vector.antt =====
-- Vector of kernel/src/util/storage.hh. `data` is the block behind the pointer: whether the pointer is
-- null, the number of elements that fit, and what each cell holds, `none` for one with no element in it.
-- An allocation succeeds; whether one is resized in place is the answer `in_place` of `_gtryrealloc`.
-- Elements are values: moving one copies it, and its destructor does nothing but end it.
pub mod Laws
pub mod Resize
pub mod Whole
pub mod Copies
use neptun_os.Base.{
  ℕ, zero, suc, ◌+◌, ◌-◌, ◌*◌, ◌/◌, ◌%◌, ◌^◌, Bool, true, false, ◌&&◌, ◌||◌, not, Option, none,
  some, Outcome, ok, fatal, ◌>>=◌, max, leb, ltb, ◌==◌, if◌then◌else◌,
}
use neptun_os.Bits.{u64_mod}

pub record Vector {ℓ} (A : Type ℓ) : Type ℓ where
  pub null : Bool
  pub count : ℕ
  pub cell : ℕ → Option A
  pub size : ℕ
  pub capacity : ℕ

unfoldable pub growfun : ℕ → ℕ
growfun cap = if cap == 0 then 8 else cap * 2 % u64_mod

module _ {ℓ} {A : Type ℓ} where
  -- `data[i]`, read and written
  unfoldable pub fetch : ℕ → Vector A → Outcome A
  fetch i v =
      if v.null || leb v.count i then fatal else elim (v.cell i) [ none ↦ fatal | some x ↦ ok x ]

  unfoldable pub store : ℕ → A → Vector A → Outcome (Vector A)
  store i x v =
      if v.null || leb v.count i
      then fatal
      else ok (record v { cell = λ j. if j == i then some x else v.cell j })

  -- The loops over a u32 do not end for a size that does not fit it.
  unfoldable pub reserve : (sizeof : ℕ) (in_place : Bool) (cap : ℕ) → Vector A → Outcome (Vector A)
  reserve sizeof in_place cap v =
      let cap' = max cap v.size in
      let bytes = cap' * sizeof % u64_mod in
      if v.null && not (cap' == 0)
      then ok (record v {
        null = bytes == 0;
        count = bytes / sizeof;
        cell = λ i. none;
        capacity = cap';
      })
      else if in_place && not v.null
      then ok (record v {
        count = bytes / sizeof;
        cell = λ i. if ltb i v.count then v.cell i else none;
        capacity = cap';
      })
      else if leb (2 ^ 32) v.size || ltb (bytes / sizeof) v.size
      then fatal
      else ok (record v {
        null = bytes == 0;
        count = bytes / sizeof;
        cell = λ i. if ltb i v.size then v.cell i else none;
        capacity = cap';
      })

  -- `data[size++] = x`
  unfoldable pub put : A → Vector A → Outcome (Vector A)
  put x v = store v.size x v >>= λ v'. ok (record v' { size = (v.size + 1) % u64_mod })

  unfoldable pub push_back : (sizeof : ℕ) (in_place : Bool) → A → Vector A → Outcome (Vector A)
  push_back sizeof in_place x v =
      (if leb v.capacity v.size then reserve sizeof in_place (growfun v.capacity) v else ok v)
      >>= put x

  -- `operator+=`
  unfoldable pub append : (sizeof : ℕ) (in_place : Bool) → A → Vector A → Outcome (Vector A)
  append sizeof in_place x v = reserve sizeof in_place ((v.size + 1) % u64_mod) v >>= put x

  unfoldable pub pop : Vector A → Outcome (A × Vector A)
  pop v =
      if v.size == 0
      then fatal
      else (fetch (v.size - 1) v >>= λ x. ok (x, record v { size = v.size - 1 }))

  -- `operator[]`; the test is `idx > size`.
  unfoldable pub index : ℕ → Vector A → Outcome A
  index idx v = if ltb v.size idx then fatal else fetch idx v

  -- The two loops of `resize`, with the rounds left; the second takes the default element.
  unfoldable pub shrink : ℕ → Vector A → Vector A
  shrink zero v = v
  shrink (suc k) v =
      shrink k
        (record v { size = v.size - 1; cell = λ j. if j == v.size - 1 then none else v.cell j })

  unfoldable pub extend : ℕ → A → Vector A → Outcome (Vector A)
  extend zero d v = ok v
  extend (suc k) d v = put d v >>= extend k d

  unfoldable pub resize :
      (sizeof : ℕ) (in_place : Bool) → A → (to : ℕ) → Vector A → Outcome (Vector A)
  resize sizeof in_place d to v = reserve sizeof in_place to v >>= λ v'.
      if ltb to v'.size then ok (shrink (v'.size - to) v') else extend (to - v'.size) d v'

  -- `data[idx] = data[size--]`: the right side is evaluated first, on the old size.
  unfoldable pub swap_remove : ℕ → Vector A → Outcome (Vector A)
  swap_remove idx v =
      if leb v.size idx
      then fatal
      else (fetch v.size v >>= λ x. store idx x v >>= λ v'. ok (record v' { size = v.size - 1 }))
