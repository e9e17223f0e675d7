-- ===== src/Vector/Laws.antt =====
-- A vector as the list of its elements, and its operations on that list.
use native.Mathlib.Nat.{
  mod-eq_of_lt, mul-div_cancel, zero-div, le-mul_of_pos_right, mul-le-mul_right,
}
use neptun_os.Base.{
  ℕ, ◌+◌, ◌-◌, ◌*◌, ◌/◌, ◌%◌, ◌^◌, ◌≤◌, ◌<◌, ◌≡◌, refl, ◌∙◌, sym, Bool, true, false, ◌&&◌, ◌||◌,
  not, none, some, List, [], ◌∷◌, ◌++◌, ok, fatal, arith, max, leb, ltb, ◌==◌, if◌then◌else◌,
  length, get_elem?, get_elem?-append_last, length-append, inl, inr, Bool-cases,
}
use neptun_os.Bits.{u64_mod}
use neptun_os.Vector.{
  Vector, growfun, fetch, store, reserve, put, push_back, put, pop, index, swap_remove,
}

-- The elements of `v` are `xs`; its block has room for `capacity` elements, and the pointer to it is null
-- at most where that is 0.
pub record Holds {ℓ} {A : Type ℓ} (v : Vector A) (xs : List A) : Type ℓ where
  pub sized : v.size ≡ length xs
  pub room : v.size ≤ v.capacity
  pub block : v.count ≡ v.capacity
  pub null_empty : v.null ≡ true → v.capacity ≡ 0
  pub cells : (i : ℕ) → i < v.size → v.cell i ≡ get_elem? xs i

-- `n` elements of `sizeof` bytes each are as many again as fit the block that is asked for.
block_count : (sizeof n : ℕ) → 0 < sizeof → n * sizeof < u64_mod → n * sizeof % u64_mod / sizeof ≡ n
block_count sizeof n pos fits = rw (mod-eq_of_lt fits) (mul-div_cancel n pos)

no_bytes :
    (sizeof n : ℕ) → 0 < sizeof → n * sizeof < u64_mod → (n * sizeof % u64_mod == 0) ≡ true → n ≡ 0
no_bytes sizeof n pos fits e =
    let empty : n * sizeof % u64_mod ≡ 0 = ground (arith, e) in
    sym (block_count sizeof n pos fits) ∙ rw empty (zero-div sizeof)

-- The capacity that a full vector grows to.
grown_bounds : (n : ℕ) → n * 2 + 8 < u64_mod → (n < growfun n) × (growfun n ≤ n * 2 + 8)
unfolding growfun
grown_bounds n h = ground arith

max_grown :
    (sizeof n size : ℕ)
    → 0 < sizeof
    → size ≤ n
    → (n * 2 + 8) * sizeof < u64_mod
    → max (growfun n) size * sizeof < u64_mod
max_grown sizeof n size pos room fits =
    let (more, most) = grown_bounds n (omega (arith, le-mul_of_pos_right (n * 2 + 8) pos)) in
    let most_of : max (growfun n) size ≤ n * 2 + 8 = omega arith in
    omega (arith, mul-le-mul_right sizeof most_of)

module _ {ℓ} {A : Type ℓ} where
  -- With a size below 2^32 and a block below 2^64 bytes, reserve keeps the elements of a vector and
  -- makes the capacity the larger of what is asked and the size.
  pub reserve-Holds :
      (sizeof : ℕ) (in_place : Bool) (want : ℕ) (v : Vector A) (xs : List A)
      → Holds v xs
      → 0 < sizeof
      → v.size < 2 ^ 32
      → max want v.size * sizeof < u64_mod
      → (v' : Vector A) × (reserve sizeof in_place want v ≡ ok v')
        × Holds v' xs
        × (v'.capacity ≡ max want v.size)
        × (v'.size ≡ v.size)
  unfolding reserve
  reserve-Holds sizeof in_place want v xs h pos small fits =
      let count = block_count sizeof (max want v.size) pos fits in
      let none_null = no_bytes sizeof (max want v.size) pos fits in
      elim (Bool-cases (v.null && not (max want v.size == 0))) [
        | inl new ↦ (
          record v {
            null = max want v.size * sizeof % u64_mod == 0;
            count = max want v.size * sizeof % u64_mod / sizeof;
            cell = λ i. none;
            capacity = max want v.size;
          },
          rw new refl,
          record {
            sized = h.sized;
            room = omega arith;
            block = count;
            null_empty = none_null;
            cells = λ i p. ground (arith, h.room, h.null_empty);
          },
          refl,
          refl,
        )
        | inr old ↦ elim (Bool-cases (in_place && not v.null)) [
          | inl stays ↦ (
            record v {
              count = max want v.size * sizeof % u64_mod / sizeof;
              cell = λ i. if ltb i v.count then v.cell i else none;
              capacity = max want v.size;
            },
            rw (old, stays) refl,
            record {
              sized = h.sized;
              room = omega arith;
              block = count;
              null_empty = λ e. ground (arith, e);
              cells = λ i p. ground (arith, h.cells i p, h.block, h.room);
            },
            refl,
            refl,
          )
          | inr moves ↦ (
            record v {
              null = max want v.size * sizeof % u64_mod == 0;
              count = max want v.size * sizeof % u64_mod / sizeof;
              cell = λ i. if ltb i v.size then v.cell i else none;
              capacity = max want v.size;
            },
            rw (old, moves) (ground (arith, count)),
            record {
              sized = h.sized;
              room = omega arith;
              block = count;
              null_empty = none_null;
              cells = λ i p. ground (arith, h.cells i p);
            },
            refl,
            refl,
          )
        ]
      ]

  -- Putting one element behind the others, where there is room.
  pub put-Holds :
      (x : A) (v : Vector A) (xs : List A)
      → Holds v xs
      → v.size < v.capacity
      → v.size + 1 < u64_mod
      → (v' : Vector A) × (put x v ≡ ok v')
        × Holds v' (xs ++ x ∷ [])
        × (v'.size ≡ v.size + 1)
        × (v'.capacity ≡ v.capacity)
  unfolding put store
  put-Holds x v xs h room fits = (
    record v { size = v.size + 1; cell = λ j. if j == v.size then some x else v.cell j },
    ground (arith, h.block, h.null_empty),
    record {
      sized = omega (arith, h.sized, length-append xs (x ∷ []));
      room = omega arith;
      block = h.block;
      null_empty = h.null_empty;
      cells = λ i p. ground (arith, get_elem?-append_last xs x i, h.sized, h.cells i);
    },
    refl,
    refl,
  )

  -- On a vector that holds a list of elements, with a size below 2^32 and a grown block below 2^64
  -- bytes, push_back returns a vector that holds the list with the element behind it, whether or not
  -- the block is resized in place.
  pub push_back-Holds :
      (sizeof : ℕ) (in_place : Bool) (x : A) (v : Vector A) (xs : List A)
      → Holds v xs
      → 0 < sizeof
      → v.size < 2 ^ 32
      → (v.capacity * 2 + 8) * sizeof < u64_mod
      → (v' : Vector A) × (push_back sizeof in_place x v ≡ ok v') × Holds v' (xs ++ x ∷ [])
  unfolding push_back
  push_back-Holds sizeof in_place x v xs h pos small fits =
      elim (Bool-cases (leb v.capacity v.size)) [
        | inl full ↦
            let narrow : v.capacity * 2 + 8 < u64_mod =
              omega (arith, le-mul_of_pos_right (v.capacity * 2 + 8) pos) in
            let (v1, e1, h1, wide, same) =
              reserve-Holds sizeof in_place (growfun v.capacity) v xs h pos small
                (max_grown sizeof v.capacity v.size pos h.room fits) in
            let (v2, e2, h2, more, as_wide) =
              put-Holds x v1 xs h1
                (omega (arith, wide, same, h.room, grown_bounds v.capacity narrow))
                (omega (arith, same)) in
            (v2, rw (full, e1) e2, h2)
        | inr spare ↦
            let (v2, e2, h2, more, as_wide) =
              put-Holds x v xs h (ground (arith, h.room)) (omega arith) in
            (v2, rw spare e2, h2)
      ]

  -- pop on a vector that holds a list with a last element returns that element and a vector that holds
  -- the rest.
  pub pop-Holds :
      (x : A) (v : Vector A) (xs : List A)
      → Holds v (xs ++ x ∷ [])
      → (v' : Vector A) × (pop v ≡ ok (x, v')) × Holds v' xs
  unfolding pop fetch
  pop-Holds x v xs h =
      let size : v.size ≡ length xs + 1 = omega (arith, h.sized, length-append xs (x ∷ [])) in
      let some_left : (v.size == 0) ≡ false = ground arith in
      let in_block : (v.null || leb v.count (v.size - 1)) ≡ false =
        ground (arith, h.room, h.block, h.null_empty) in
      let at_end : (v.size - 1 == length xs) ≡ true = ground arith in
      let cell : v.cell (v.size - 1) ≡ some x =
        h.cells (v.size - 1) (omega arith)
        ∙ get_elem?-append_last xs x (v.size - 1)
        ∙ rw at_end refl in
      (
        record v { size = v.size - 1 },
        rw (some_left, in_block, cell) refl,
        record {
          sized = omega arith;
          room = omega (arith, h.room);
          block = h.block;
          null_empty = h.null_empty;
          cells = λ i p. ground (arith, size, h.cells i, get_elem?-append_last xs x i);
        },
      )

  -- `operator[]` below the size gives the element.
  pub index-Holds :
      (i : ℕ) (x : A) (v : Vector A) (xs : List A)
      → Holds v xs
      → get_elem? xs i ≡ some x
      → i < length xs
      → index i v ≡ ok x
  unfolding index fetch
  index-Holds i x v xs h e p = ground (arith, h.sized, h.room, h.block, h.null_empty, h.cells i)

  -- swap_remove on a vector whose size is its capacity reads behind its block, whatever the index.
  pub swap_remove-full :
      (idx : ℕ) (v : Vector A) (xs : List A)
      → Holds v xs
      → v.size ≡ v.capacity
      → swap_remove idx v ≡ fatal
  unfolding swap_remove fetch
  swap_remove-full idx v xs h full = ground (arith, h.block)
