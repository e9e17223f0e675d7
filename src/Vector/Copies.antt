-- ===== src/Vector/Copies.antt =====
-- Copies of vectors, on the list of their elements: kernel/src/util/storage.hh, Vector.
use neptun_os.Base.{
  ℕ, zero, suc, ◌+◌, ◌*◌, ◌≤◌, ◌<◌, ◌≡◌, refl, ◌∙◌, sym, Bool, true, false, ◌||◌, some, List, [],
  ok, arith, max, leb, ◌==◌, ==_iff, Bool-cases, inl, inr, if◌then◌else◌, length, get_elem?,
  get_elem?-of_lt,
}
use neptun_os.Bits.{u64_mod}
use neptun_os.Vector.{Vector, index, fetch, store, reserve}
use neptun_os.Vector.Laws.{Holds, reserve-Holds, index-Holds}
use neptun_os.Vector.Whole.{empty, copy_cells, copy, equal_cells, equal}

module _ {ℓ} {A : Type ℓ} where
  -- What filling the cells of `v` leaves.
  record Filled (v v' : Vector A) (xs : List A) : Type ℓ where
    null : v'.null ≡ v.null
    count : v'.count ≡ v.count
    size : v'.size ≡ v.size
    capacity : v'.capacity ≡ v.capacity
    cells : (j : ℕ) → j < length xs → v'.cell j ≡ get_elem? xs j

  copy_cells-Filled :
      (k i : ℕ) (o v : Vector A) (xs : List A)
      → Holds o xs
      → i + k ≡ length xs
      → length xs ≤ v.count
      → (0 < k → v.null ≡ false)
      → ((j : ℕ) → j < i → v.cell j ≡ get_elem? xs j)
      → (v' : Vector A) × (copy_cells k i o v ≡ ok v') × Filled v v' xs
  unfolding copy_cells store
  copy_cells-Filled zero i o v xs h sum room live done = (
    v,
    refl,
    record {
      null = refl;
      count = refl;
      size = refl;
      capacity = refl;
      cells = λ j p. done j (omega (arith, sum));
    },
  )
  copy_cells-Filled (suc k) i o v xs h sum room live done =
      let (x, e) = get_elem?-of_lt xs i (omega (arith, sum)) in
      let read : index i o ≡ ok x = index-Holds i x o xs h e (omega (arith, sum)) in
      let inside : (v.null || leb v.count i) ≡ false =
        ground (arith, live (omega arith), room, sum) in
      let v1 : Vector A = record v { cell = λ j. if j == i then some x else v.cell j } in
      let (v', e', f) =
        copy_cells-Filled k (i + 1) o v1 xs h (omega (arith, sum)) room (λ p. live (omega arith))
          (λ j p. elim (Bool-cases (j == i)) [
            | inl same ↦ let at_i : j ≡ i = (==_iff j i).0 same in rw (same, at_i) (sym e)
            | inr other ↦ rw other (done j (ground (arith, other, p)))
          ]) in
      (
        v',
        rw (read, inside) e',
        record {
          null = f.null;
          count = f.count;
          size = f.size;
          capacity = f.capacity;
          cells = f.cells;
        },
      )

  pub empty-Holds : Holds (empty {A = A}) []
  empty-Holds = record {
    sized = refl;
    room = omega arith;
    block = refl;
    null_empty = λ e. refl;
    cells = λ i p. absurd (omega arith);
  }

  copy_steps :
      (sizeof : ℕ) (o v1 v : Vector A)
      → reserve sizeof false o.capacity empty ≡ ok v1
      → copy_cells o.size 0 o (record v1 { size = o.size }) ≡ ok v
      → copy sizeof o ≡ ok v
  unfolding copy
  copy_steps sizeof o v1 v grown e = rw grown e

  -- A copy of a vector whose block is below 2^64 bytes holds the same elements, with the same capacity.
  pub copy-Holds :
      (sizeof : ℕ) (o : Vector A) (xs : List A)
      → Holds o xs
      → 0 < sizeof
      → o.capacity * sizeof < u64_mod
      → (v : Vector A) × (copy sizeof o ≡ ok v) × Holds v xs × (v.capacity ≡ o.capacity)
  copy-Holds sizeof o xs h pos fits =
      let same : max o.capacity 0 ≡ o.capacity = omega arith in
      let (v1, grown, h1, cap, size) =
        reserve-Holds sizeof false o.capacity empty [] empty-Holds pos (omega arith)
          (rw same fits) in
      let cap' : v1.capacity ≡ o.capacity = cap ∙ same in
      let (v, e, f) =
        copy_cells-Filled o.size 0 o (record v1 { size = o.size }) xs h (omega (arith, h.sized))
          (omega (arith, h1.block, cap', h.room, h.sized))
          (λ p. ground (arith, h1.null_empty, cap', h.room, p)) (λ j p. absurd (omega arith)) in
      (
        v,
        copy_steps sizeof o v1 v grown e,
        filled v1 v h1.block h1.null_empty cap' f,
        f.capacity ∙ cap',
      )
    where
      filled :
          (v1 v : Vector A)
          → v1.count ≡ v1.capacity
          → (v1.null ≡ true → v1.capacity ≡ 0)
          → v1.capacity ≡ o.capacity
          → Filled (record v1 { size = o.size }) v xs
          → Holds v xs
      filled v1 v block null_empty cap f = record {
        sized = f.size ∙ h.sized;
        room = omega (arith, f.size, f.capacity, cap, h.room);
        block = f.count ∙ block ∙ sym f.capacity;
        null_empty = λ e. f.capacity ∙ null_empty (sym f.null ∙ e);
        cells = λ i p. f.cells i (omega (arith, f.size, h.sized));
      }

  fetch-Holds :
      (i : ℕ) (x : A) (v : Vector A) (xs : List A)
      → Holds v xs
      → get_elem? xs i ≡ some x
      → i < length xs
      → fetch i v ≡ ok x
  unfolding fetch
  fetch-Holds i x v xs h e p = ground (arith, h.sized, h.room, h.block, h.null_empty, h.cells i)

  -- Comparing two vectors that hold the same elements, by a reflexive test, tells that they are equal.
  equal_cells-same :
      (eq : A → A → Bool) (k i : ℕ) (o v : Vector A) (xs : List A)
      → ((x : A) → eq x x ≡ true)
      → Holds o xs
      → Holds v xs
      → i + k ≡ length xs
      → equal_cells eq k i o v ≡ ok true
  unfolding equal_cells
  equal_cells-same eq zero i o v xs r h h' sum = refl
  equal_cells-same eq (suc k) i o v xs r h h' sum =
      let (x, e) = get_elem?-of_lt xs i (omega (arith, sum)) in
      let read : fetch i v ≡ ok x = fetch-Holds i x v xs h' e (omega (arith, sum)) in
      let read' : fetch i o ≡ ok x = fetch-Holds i x o xs h e (omega (arith, sum)) in
      rw (read, read', r x) (equal_cells-same eq k (i + 1) o v xs r h h' (omega (arith, sum)))

  -- A copy of a vector whose block is below 2^64 bytes holds the same elements with the same capacity,
  -- and a test for equality that is reflexive tells that it equals the vector.
  pub equal-copy :
      (sizeof : ℕ) (eq : A → A → Bool) (o : Vector A) (xs : List A)
      → ((x : A) → eq x x ≡ true)
      → Holds o xs
      → 0 < sizeof
      → o.capacity * sizeof < u64_mod
      → (v : Vector A) × (copy sizeof o ≡ ok v)
        × Holds v xs
        × (v.capacity ≡ o.capacity)
        × (equal eq o v ≡ ok true)
  unfolding equal
  equal-copy sizeof eq o xs r h pos fits =
      let (v, e, h', cap) = copy-Holds sizeof o xs h pos fits in
      let size : (o.size == v.size) ≡ true = ground (arith, h.sized, h'.sized) in
      let same = equal_cells-same eq v.size 0 o v xs r h h' (omega (arith, h'.sized)) in
      (v, e, h', cap, rw size same)
