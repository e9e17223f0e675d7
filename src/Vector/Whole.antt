-- ===== src/Vector/Whole.antt =====
-- Vectors as a whole: the constructors, copies, moves and the comparison of Vector in
-- kernel/src/util/storage.hh. `VEC_DEFAULT_SIZE` is 0 (config.hh), so a new vector has no block.
use neptun_os.Base.{
  ℕ, zero, suc, ◌+◌, ◌-◌, ◌*◌, ◌/◌, ◌%◌, Bool, true, false, ◌&&◌, ◌||◌, not, none, List, [], ◌∷◌,
  Outcome, ok, fatal, ◌>>=◌, ◌==◌, if◌then◌else◌, length, leb, ltb,
}
use neptun_os.Arith.{align}
use neptun_os.Bits.{u64_mod}
use neptun_os.Vector.{Vector, growfun, fetch, store, reserve, put, index}

module _ {ℓ} {A : Type ℓ} where
  abbrev pub empty : Vector A
  empty = record { null = true; count = 0; cell = λ i. none; size = 0; capacity = 0 }

  -- `_galloc(cap * sizeof(T))` and its capacity
  unfoldable pub with_capacity : (sizeof cap : ℕ) → Vector A
  with_capacity sizeof cap =
      if cap == 0
      then empty
      else let bytes = cap * sizeof % u64_mod in
        record {
          null = bytes == 0;
          count = bytes / sizeof;
          cell = λ i. none;
          size = 0;
          capacity = cap;
        }

  unfoldable pub emplace_back : (sizeof : ℕ) (in_place : Bool) → A → Vector A → Outcome (Vector A)
  emplace_back sizeof in_place x v =
      (if leb v.capacity v.size then reserve sizeof in_place (growfun v.capacity) v else ok v)
      >>= λ v'.
          if (not (v'.size == 0) || not (v'.capacity == 0)) && v'.null then fatal else put x v'

  -- The loop over an initializer list.
  unfoldable pub emplace_all :
      (sizeof : ℕ) (in_place : Bool) → List A → Vector A → Outcome (Vector A)
  emplace_all sizeof in_place [] v = ok v
  emplace_all sizeof in_place (x ∷ xs) v =
      emplace_back sizeof in_place x v >>= emplace_all sizeof in_place xs

  unfoldable pub from_items : (sizeof : ℕ) (in_place : Bool) → List A → Outcome (Vector A)
  unfolding with_capacity
  from_items sizeof in_place items =
      let capacity = align (length items) 8 in
      if capacity == 0
      then ok empty
      else emplace_all sizeof in_place items (with_capacity sizeof capacity)

  -- `new (&data[i]) T(o[i])` for the places from `i` on, with the rounds left
  unfoldable pub copy_cells : ℕ → (i : ℕ) → (o v : Vector A) → Outcome (Vector A)
  copy_cells zero i o v = ok v
  copy_cells (suc k) i o v = index i o >>= λ x. store i x v >>= copy_cells k (i + 1) o

  unfoldable pub copy : (sizeof : ℕ) → (o : Vector A) → Outcome (Vector A)
  copy sizeof o = reserve sizeof false o.capacity empty >>= λ v.
      copy_cells o.size 0 o (record v { size = o.size })

  -- A move leaves the other vector empty: the new one and the old one.
  unfoldable pub move : (o : Vector A) → Vector A × Vector A
  move o = (
    record empty {
      null = o.null;
      count = o.count;
      cell = o.cell;
      size = o.size;
      capacity = o.capacity;
    },
    empty,
  )

  -- The destructors of the elements; at a null pointer there is none to end.
  unfoldable pub destroy_elements : Vector A → Outcome (Vector A)
  destroy_elements v =
      if v.null && not (v.size == 0)
      then fatal
      else ok (record v { cell = λ i. if ltb i v.size then none else v.cell i })

  unfoldable pub assign :
      (sizeof : ℕ) (in_place : Bool) → (o : Vector A) → Vector A → Outcome (Vector A)
  assign sizeof in_place o v = do
    v1 ← destroy_elements v
    v2 ← reserve sizeof in_place o.capacity v1
    copy_cells o.size 0 o (record v2 { size = o.size })

  unfoldable pub move_assign : (o : Vector A) → Vector A → Outcome (Vector A × Vector A)
  unfolding move
  move_assign o v = destroy_elements v >>= λ _. ok (move o)

  -- The state behind the destructor; the block goes back to the heap.
  unfoldable pub destroy : Vector A → Outcome (Vector A)
  destroy v =
      destroy_elements v >>= λ v'. ok (record v' { null = true; count = 0; cell = λ i. none })

  -- With an empty vector `size - 1` names the cell in front of the block.
  unfoldable pub last : Vector A → Outcome A
  last v = if v.size == 0 then fatal else fetch (v.size - 1) v

  -- `operator==`, by the comparison `eq` of the elements: the loop, with the rounds left
  unfoldable pub equal_cells : (eq : A → A → Bool) → ℕ → (i : ℕ) → (o v : Vector A) → Outcome Bool
  equal_cells eq zero i o v = ok true
  equal_cells eq (suc k) i o v = do
    x ← fetch i v
    y ← fetch i o
    let rest = equal_cells eq k (i + 1) o v
    if not (eq x y) then ok false else rest

  unfoldable pub equal : (eq : A → A → Bool) → (o v : Vector A) → Outcome Bool
  equal eq o v = if not (o.size == v.size) then ok false else equal_cells eq v.size 0 o v
