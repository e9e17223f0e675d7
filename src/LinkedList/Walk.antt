-- ===== src/LinkedList/Walk.antt =====
-- Reading a linked list: by an index, and from the first element to the last by an iterator.
use neptun_os.Base.{
  ℕ, zero, suc, ◌+◌, ◌-◌, ◌%◌, ◌<◌, ◌≤◌, ◌≡◌, refl, ap, ◌∙◌, sym, true, false, none, some, List, [],
  ◌∷◌, ok, ◌==◌, if◌then◌else◌, length, get_elem?, inl, inr, Bool-cases, ==_iff, arith,
}
use native.Mathlib.Nat.{add-zero, mod-eq_of_lt, mod-eq-sub-mod}
use neptun_os.LinkedList.{LinkedList, load, walk, get_link, increment, visit}
use neptun_os.LinkedList.Ring.{Ring, after}
use neptun_os.LinkedList.Writes.{load-Linked}

-- `k` steps forward from place `i` of a ring of `n`
pub after_mod : (n i k : ℕ) → i < n → ((after n i + k) % n) ≡ ((i + suc k) % n)
after_mod n i k h = elim (Bool-cases (i + 1 == n)) [
  | inl wrap ↦
      let end : i + 1 ≡ n = (==_iff (i + 1) n).0 wrap in
      let big : n ≤ i + suc k = omega arith in
      let e : after n i + k ≡ i + suc k - n = ground arith in rw e (sym (mod-eq-sub-mod big))
  | inr inside ↦ let e : after n i + k ≡ i + suc k = ground arith in rw e refl
]

module _ {ℓ} {A : Type ℓ} (l : LinkedList A) (xs : List A) (at : ℕ → ℕ) (mark : ℕ)
    (r : Ring l xs at mark) where
  walk-Ring : (k i : ℕ) → i < length xs → walk k (at i) l ≡ ok (at ((i + k) % length xs), 0)
  unfolding walk
  walk-Ring zero i h = ap (λ t. ok (at t, 0)) (sym (rw add-zero (mod-eq_of_lt h)))
  walk-Ring (suc k) i h =
      let (x, e, loaded) = load-Linked l xs at _ _ _ r.linked i h in
      let real : (at i == 0) ≡ false = ground (arith, r.linked.nonzero i) in
      let next : after (length xs) i < length xs = ground arith in
      rw (real, loaded)
        (walk-Ring k (after (length xs) i) next
          ∙ ap (λ t. ok (at t, 0)) (after_mod (length xs) i k h))

  -- An index past the end goes round.
  pub get_link-Ring : (idx : ℕ) → 0 < length xs → get_link idx l ≡ ok (at (idx % length xs))
  unfolding get_link
  get_link-Ring idx some_x =
      let at_first : l.first ≡ at 0 = ground (arith, r.head) in
      let inside : idx % length xs < length xs = ground arith in
      let walked : walk idx l.first l ≡ ok (at (idx % length xs), 0) =
        ap (λ t. walk idx t l) at_first
        ∙ walk-Ring idx 0 some_x
        ∙ ap (λ t. ok (at (t % length xs), 0)) (omega arith) in
      let (x, e, loaded) = load-Linked l xs at _ _ _ r.linked (idx % length xs) inside in
      rw (walked, loaded) refl

  -- From place `i` on, with one round more than there are elements.
  visit-Ring_from :
      (ys : List A) (i p : ℕ)
      → mark + 1 ≡ length xs
      → p ≡ (if length ys == 0 then 0 else at i)
      → i + length ys ≡ length xs
      → ((j : ℕ) (x : A) → get_elem? ys j ≡ some x → get_elem? xs (i + j) ≡ some x)
      → visit (suc (length ys)) p l ≡ ok ys
  unfolding visit increment
  visit-Ring_from [] i p flagged here place same =
      let null : (p == 0) ≡ true = ground (arith, here) in rw null refl
  visit-Ring_from (y ∷ ys) i p flagged here place same =
      let inside : i < length xs = omega (arith, place) in
      let (x, e, loaded) = load-Linked l xs at _ _ _ r.linked i inside in
      let at_i : p ≡ at i = ground (arith, here) in
      let real : (p == 0) ≡ false = ground (arith, at_i, r.linked.nonzero i) in
      let read = ap (λ t. load t l) at_i ∙ loaded in
      let first : get_elem? xs (i + 0) ≡ some y = same 0 y refl in
      let value : some x ≡ some y = sym e ∙ ap (get_elem? xs) (omega arith) ∙ first in
      let rest =
        visit-Ring_from ys (i + 1) (if i == mark then 0 else at (after (length xs) i)) flagged
          (ground (arith, place, flagged)) (omega (arith, place))
          (λ j x e. ap (get_elem? xs) (omega arith) ∙ same (suc j) x e) in
      rw (real, read, rest) (ap (λ t. elim t [ none ↦ ok (y ∷ ys) | some v ↦ ok (v ∷ ys) ]) value)

  -- A loop with the iterator over a ring whose last link is flagged ends in one round more than there
  -- are elements, and sees each of them once, in order.
  pub visit-Ring : mark + 1 ≡ length xs → visit (suc (length xs)) l.first l ≡ ok xs
  visit-Ring flagged =
      visit-Ring_from xs 0 l.first flagged r.head (omega arith)
        (λ j x e. ap (get_elem? xs) (omega arith) ∙ e)
