-- ===== src/Vector/Resize.antt =====
-- `resize` of a vector, on the list of its elements.
use mathlib.Core.Path.{subst}
use native.Mathlib.Nat.{le-mul_of_pos_right}
use mathlib.Core.List.{append-nil, append_assoc}
use neptun_os.Base.{
  ℕ, zero, suc, ◌+◌, ◌-◌, ◌*◌, ◌^◌, ◌≤◌, ◌<◌, ◌≡◌, refl, ◌∙◌, sym, Bool, true, false, none, List,
  [], ◌∷◌, ◌++◌, ok, arith, max, ltb, ◌==◌, if◌then◌else◌, length, get_elem?, length-append,
}
use neptun_os.Bits.{u64_mod}
use neptun_os.Vector.{Vector, shrink, extend, resize}
use neptun_os.Vector.Laws.{Holds, reserve-Holds, put-Holds}

module _ {ℓ} {A : Type ℓ} where
  -- What ending the last `k` elements leaves.
  record Shrunk (k : ℕ) (v v' : Vector A) : Type ℓ where
    size : v'.size ≡ v.size - k
    capacity : v'.capacity ≡ v.capacity
    count : v'.count ≡ v.count
    null : v'.null ≡ v.null
    kept : (i : ℕ) → i < v.size - k → v'.cell i ≡ v.cell i

  shrink-Shrunk : (k : ℕ) (v : Vector A) → k ≤ v.size → Shrunk k v (shrink k v)
  unfolding shrink
  shrink-Shrunk zero v h = record {
    size = omega arith;
    capacity = refl;
    count = refl;
    null = refl;
    kept = λ i p. refl;
  }
  shrink-Shrunk (suc k) v h =
      let v1 : Vector A = record v {
        size = v.size - 1;
        cell = λ j. if j == v.size - 1 then none else v.cell j;
      } in
      let s = shrink-Shrunk k v1 (omega arith) in
      record {
        size = omega (arith, s.size);
        capacity = s.capacity;
        count = s.count;
        null = s.null;
        kept = λ i p.
            let other : (i == v.size - 1) ≡ false = ground arith in
            s.kept i (omega arith) ∙ rw other refl;
      }

  get_elem?-append_front :
      (xs ys : List A) (i : ℕ) → i < length xs → get_elem? (xs ++ ys) i ≡ get_elem? xs i
  get_elem?-append_front [] ys i h = absurd (omega arith)
  get_elem?-append_front (x ∷ xs) ys zero h = refl
  get_elem?-append_front (x ∷ xs) ys (suc i) h = get_elem?-append_front xs ys i (omega arith)

  shrink-Holds :
      (v : Vector A) (front back : List A)
      → Holds v (front ++ back)
      → Holds (shrink (length back) v) front
  shrink-Holds v front back h =
      let sum : v.size ≡ length front + length back =
        omega (arith, h.sized, length-append front back) in
      let s = shrink-Shrunk (length back) v (omega arith) in
      record {
        sized = omega (arith, s.size);
        room = omega (arith, s.size, s.capacity, h.room);
        block = omega (arith, s.count, s.capacity, h.block);
        null_empty = λ e. s.capacity ∙ h.null_empty (sym s.null ∙ e);
        cells = λ i p.
            s.kept i (omega (arith, s.size))
            ∙ h.cells i (omega (arith, s.size))
            ∙ get_elem?-append_front front back i (omega (arith, s.size));
      }

  -- `n` copies of `d`
  abbrev pub replicate : ℕ → A → List A
  replicate zero d = []
  replicate (suc n) d = d ∷ replicate n d

  extend-Holds :
      (k : ℕ) (d : A) (v : Vector A) (xs : List A)
      → Holds v xs
      → v.size + k ≤ v.capacity
      → v.size + k < u64_mod
      → (v' : Vector A) × (extend k d v ≡ ok v') × Holds v' (xs ++ replicate k d)
  unfolding extend
  extend-Holds zero d v xs h room fits = (v, refl, subst (Holds v) (sym (append-nil xs)) h)
  extend-Holds (suc k) d v xs h room fits =
      let (v1, e1, h1, more, same) = put-Holds d v xs h (omega arith) (omega arith) in
      let (v2, e2, h2) =
        extend-Holds k d v1 (xs ++ d ∷ []) h1 (omega (arith, more, same)) (omega (arith, more)) in
      (v2, rw e1 e2, subst (Holds v2) (append_assoc xs (d ∷ []) (replicate k d)) h2)

  -- With a size below 2^32 and a block below 2^64 bytes, resizing a vector to a smaller number keeps
  -- that many of its first elements.
  pub resize-shorter :
      (sizeof : ℕ) (in_place : Bool) (d : A) (v : Vector A) (front back : List A)
      → Holds v (front ++ back)
      → 0 < length back
      → 0 < sizeof
      → v.size < 2 ^ 32
      → v.size * sizeof < u64_mod
      → (v' : Vector A) × (resize sizeof in_place d (length front) v ≡ ok v') × Holds v' front
  unfolding resize
  resize-shorter sizeof in_place d v front back h some_back pos small fits =
      let sum : v.size ≡ length front + length back =
        omega (arith, h.sized, length-append front back) in
      let largest : max (length front) v.size ≡ v.size = omega arith in
      let (v1, e1, h1, wide, same) =
        reserve-Holds sizeof in_place (length front) v (front ++ back) h pos small
          (rw largest fits) in
      let less : ltb (length front) v1.size ≡ true = ground (arith, same) in
      let rounds : v1.size - length front ≡ length back = omega (arith, same) in
      (shrink (length back) v1, rw (e1, less, rounds) refl, shrink-Holds v1 front back h1)

  -- With a size below 2^32 and a block below 2^64 bytes, resizing a vector by n elements more adds n
  -- copies of the default element behind the others.
  pub resize-longer :
      (sizeof : ℕ) (in_place : Bool) (d : A) (n : ℕ) (v : Vector A) (xs : List A)
      → Holds v xs
      → 0 < sizeof
      → v.size < 2 ^ 32
      → (length xs + n) * sizeof < u64_mod
      → (v' : Vector A) × (resize sizeof in_place d (length xs + n) v ≡ ok v')
        × Holds v' (xs ++ replicate n d)
  unfolding resize
  resize-longer sizeof in_place d n v xs h pos small fits =
      let largest : max (length xs + n) v.size ≡ length xs + n = omega (arith, h.sized) in
      let narrow : length xs + n < u64_mod =
        omega (arith, le-mul_of_pos_right (length xs + n) pos) in
      let (v1, e1, h1, wide, same) =
        reserve-Holds sizeof in_place (length xs + n) v xs h pos small (rw largest fits) in
      let (v2, e2, h2) =
        extend-Holds n d v1 xs h1 (omega (arith, wide, same, h.sized))
          (omega (arith, same, h.sized)) in
      let more : ltb (length xs + n) v1.size ≡ false = ground (arith, same, h.sized) in
      let rounds : length xs + n - v1.size ≡ n = omega (arith, same, h.sized) in
      (v2, rw (e1, more, rounds) e2, h2)
