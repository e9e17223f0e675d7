-- ===== src/LinkedList/Remove.antt =====
-- Taking a link out of a linked list.
use neptun_os.Base.{
  ℕ, zero, suc, ◌+◌, ◌-◌, ◌<◌, ◌≡◌, ◌≢◌, refl, ◌∙◌, sym, Bool, true, false, Option, none, List, [],
  ◌∷◌, ok, fatal, ◌==◌, if◌then◌else◌, length, get_elem?, lt_of_get_elem?, arith, ltb,
}
use neptun_os.LinkedList.{Link, LinkedList, load, put, push_back, remove}
use neptun_os.LinkedList.Push.{push_back-eq-fatal}
use neptun_os.LinkedList.Ring.{Linked, Ring, before, after, Linked-nil, Linked-cong, Linked-map}
use neptun_os.LinkedList.Writes.{load-Linked, set_next-Assigned, set_prev-Assigned}

-- the list without its element at place `k`
abbrev pub remove_at {ℓ} : {A : Type ℓ} → ℕ → List A → List A
remove_at k [] = []
remove_at zero (x ∷ xs) = xs
remove_at (suc k) (x ∷ xs) = x ∷ remove_at k xs

-- place `i` of what is left, among the old places
abbrev pub skip : ℕ → ℕ → ℕ
skip k i = if ltb i k then i else i + 1

-- The neighbours of what is left, once the pointers pass over place `k`.
skip-before :
    (at : ℕ → ℕ) (n m k i : ℕ)
    → n + 1 ≡ m
    → k < m
    → i < n
    → (if skip k i == after m k then at (before m k) else at (before m (skip k i)))
      ≡ at (skip k (before n i))
skip-before at n m k i size inside h = ground arith

skip-after :
    (at : ℕ → ℕ) (n m k i : ℕ)
    → n + 1 ≡ m
    → k < m
    → i < n
    → (if skip k i == before m k then at (after m k) else at (after m (skip k i)))
      ≡ at (skip k (after n i))
skip-after at n m k i size inside h = ground arith

module _ {ℓ} {A : Type ℓ} where
  pub length-remove_at :
      (k : ℕ) (xs : List A) → k < length xs → length (remove_at k xs) + 1 ≡ length xs
  length-remove_at k [] h = absurd (omega arith)
  length-remove_at zero (x ∷ xs) h = omega arith
  length-remove_at (suc k) (x ∷ xs) h = omega (arith, length-remove_at k xs (omega arith))

  pub get_elem?-remove_at :
      (k : ℕ) (xs : List A) (i : ℕ) → get_elem? (remove_at k xs) i ≡ get_elem? xs (skip k i)
  get_elem?-remove_at k [] i = refl
  get_elem?-remove_at zero (x ∷ xs) i =
      let place : skip zero i ≡ suc i = ground arith in rw place refl
  get_elem?-remove_at (suc k) (x ∷ xs) zero =
      let place : skip (suc k) zero ≡ zero = ground arith in rw place refl
  get_elem?-remove_at (suc k) (x ∷ xs) (suc i) =
      let place : skip (suc k) (suc i) ≡ suc (skip k i) = ground arith in
      rw place (get_elem?-remove_at k xs i)

  -- Nothing is left at a place that the others do not stand at.
  Linked-drop :
      {store : ℕ → Option (Link A)} {xs : List A} {at prev next : ℕ → ℕ} {last : ℕ → Bool} (p : ℕ)
      → ((i : ℕ) → i < length xs → at i ≢ p)
      → Linked store xs at prev next last
      → Linked (λ q. if q == p then none else store q) xs at prev next last
  Linked-drop {xs} {at} p away k = record {
    nonzero = k.nonzero;
    apart = k.apart;
    cells = λ i x e.
        let elsewhere : (at i == p) ≡ false = ground (arith, away i (lt_of_get_elem? xs i x e)) in
        rw elsewhere (k.cells i x e);
  }

  -- Removing the link at place `k` of several: the pointers and flags of what is left.
  pub remove-Linked :
      (l : LinkedList A) (xs : List A) (at : ℕ → ℕ) (mark k : ℕ)
      → Ring l xs at mark
      → k < length xs
      → 1 < length xs
      → (l' : LinkedList A) × (remove (at k) l ≡ ok l')
        × (l'.store (at k) ≡ none)
        × (l'.first ≡ at (skip k 0))
        × (l'.size + 1 ≡ l.size)
        × Linked l'.store
            (remove_at k xs)
            (λ i. at (skip k i))
            (λ i. at (skip k (before (length (remove_at k xs)) i)))
            (λ i. at (skip k (after (length (remove_at k xs)) i)))
            (λ i. skip k i == mark)
  unfolding remove
  remove-Linked l xs at mark k r inside many =
      let n : ℕ = length xs in
      let rest : ℕ = length (remove_at k xs) in
      let size : rest + 1 ≡ n = length-remove_at k xs inside in
      let prv : ℕ = before n k in
      let nxt : ℕ = after n k in
      let prv_in : prv < n = ground arith in
      let nxt_in : nxt < n = ground arith in
      let (x, e, loaded) = load-Linked l xs at _ _ _ r.linked k inside in
      let (l1, e1, a1) = set_next-Assigned l xs at _ _ _ r.linked prv prv_in (at nxt) in
      let (x1, ex1, loaded1) = load-Linked l1 xs at _ _ _ a1.linked k inside in
      let kept : (if k == prv then at nxt else at (after n k)) ≡ at nxt = ground arith in
      let kept' : (if k == nxt then at prv else at (before n k)) ≡ at prv = ground arith in
      let (l2, e2, a2) = set_prev-Assigned l1 xs at _ _ _ a1.linked nxt nxt_in (at prv) in
      let (x2, ex2, loaded2) = load-Linked l2 xs at _ _ _ a2.linked k inside in
      let some_size : (l.size == 0) ≡ false = ground (arith, r.sized) in
      let not_single : (l.size == 1) ≡ false = ground (arith, r.sized) in
      let some_first : (l.first == 0) ≡ false = ground (arith, r.head, r.linked.nonzero 0) in
      let self : (at k == at k) ≡ true = ground arith in
      let at_first : l.first ≡ at 0 = ground (arith, r.head) in
      let first_left : (if l.first == at k then at nxt else l.first) ≡ at (skip k 0) =
        ground (arith, at_first, r.linked.apart 0 k) in
      let left =
        Linked-map (remove_at k xs) (skip k) (λ i h. ground (arith, size))
          (λ i x e. sym (get_elem?-remove_at k xs i) ∙ e) (λ i j h h' e. ground (arith, e))
          a2.linked in
      (
        record (put (at k) none l2) {
          first = if l.first == at k then at nxt else l.first;
          size = l.size - 1;
        },
        rw (some_size, some_first, not_single, loaded, e1, loaded1, kept, e2, loaded2, kept) refl,
        rw self refl,
        first_left,
        omega (arith, r.sized),
        Linked-cong
            (λ i h. (
              skip-before at rest n k i size inside h,
              skip-after at rest n k i size inside h,
              refl,
            ))
            (Linked-drop (at k)
              (λ i h same.
                let place : skip k i ≡ k =
                  r.linked.apart (skip k i) k (ground (arith, size)) inside same in
                ground (arith, place))
              left),
      )

  -- A list of one element becomes the empty one.
  pub remove-Ring_single :
      (l : LinkedList A) (x : A) (at : ℕ → ℕ)
      → Ring l (x ∷ []) at 0
      → (l' : LinkedList A) × (remove (at 0) l ≡ ok l') × (l'.store (at 0) ≡ none) × Ring l' [] at 0
  unfolding remove load
  remove-Ring_single l x at r =
      let some_size : (l.size == 0) ≡ false = ground (arith, r.sized) in
      let single : (l.size == 1) ≡ true = ground (arith, r.sized) in
      let some_first : (l.first == 0) ≡ false = ground (arith, r.head, r.linked.nonzero 0) in
      let self : (at 0 == at 0) ≡ true = ground arith in
      (
        record (put (at 0) none l) { first = 0; size = 0 },
        rw (some_size, some_first, single, load, r.linked.cells 0 x refl) refl,
        rw self refl,
        record {
          sized = refl;
          head = refl;
          linked = Linked-cong (λ i h. absurd (omega (arith, h))) (Linked-nil _ at);
        },
      )

  module _ (l : LinkedList A) (xs : List A) (at : ℕ → ℕ) (mark k : ℕ) (r : Ring l xs at mark)
      (inside : k < length xs) (many : 1 < length xs) where
    -- Removing a link that is not the flagged one from a ring of several never faults: its element
    -- leaves the list, its link is freed, and the others stay a ring in their order.
    pub remove-Ring :
        mark ≢ k
        → (l' : LinkedList A) × (remove (at k) l ≡ ok l')
          × (l'.store (at k) ≡ none)
          × Ring l' (remove_at k xs) (λ i. at (skip k i)) (if ltb mark k then mark else mark - 1)
    remove-Ring other =
        let (l', e, gone, first, size, linked) = remove-Linked l xs at mark k r inside many in
        let left = length-remove_at k xs inside in
        (
          l',
          e,
          gone,
          record {
            sized = omega (arith, r.sized, left);
            head = ground (arith, left, first);
            linked = Linked-cong (λ i h. (refl, refl, ground arith)) linked;
          },
        )

    -- No link that is left carries the flag which `push_back` asserts.
    pub push_back-remove :
        (fresh : ℕ) (y : A)
        → fresh ≢ 0
        → mark ≡ k
        → ((i : ℕ) → i < length xs → at i ≢ fresh)
        → (l' : LinkedList A) × (remove (at k) l ≡ ok l') × (push_back fresh y l' ≡ fatal)
    push_back-remove fresh y real same new =
        let (l', e, gone, first, size, linked) = remove-Linked l xs at mark k r inside many in
        let left = length-remove_at k xs inside in
        let first' : l'.first ≡ at (skip k 0) = first in
        (
          l',
          e,
          push_back-eq-fatal fresh y l' real (remove_at k xs) (λ i. at (skip k i)) _
              (omega (arith, left)) first' linked (ground arith)
              (λ i h. new (skip k i) (ground (arith, left))),
        )
