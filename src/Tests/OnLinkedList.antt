-- ===== src/Tests/OnLinkedList.antt =====
-- Linked lists of numbers, with two links at the addresses 10 and 20; the next link is allocated at 30.
use neptun_os.Base.{
  ℕ, zero, suc, ◌≡◌, ◌≢◌, refl, ap, ◌>>=◌, true, false, none, some, [], ◌∷◌, ok, arith, get_elem?,
  ◌==◌, if◌then◌else◌,
}
use neptun_os.LinkedList.{LinkedList, push_back, remove, remove_index, get_link, visit, load, walk}
use neptun_os.LinkedList.Ring.{Ring, before, after}
use neptun_os.LinkedList.Push.{behind, push_back-Ring}
use neptun_os.LinkedList.Remove.{skip, remove-Ring}
use neptun_os.LinkedList.Walk.{visit-Ring}

abbrev pub duo : {A : Type 0} → A → A → LinkedList A
duo x y = record {
  store = λ p.
      if p == 10
      then some (record { prev = 20; next = 20; value = x; last = false })
      else if p == 20
      then some (record { prev = 10; next = 10; value = y; last = true })
      else none;
  first = 10;
  size = 2;
}

abbrev pub places : ℕ → ℕ
places i = if i == 0 then 10 else 20

duo-cells :
    {A : Type 0} (x y : A) (i : ℕ) (v : A)
    → get_elem? (x ∷ y ∷ []) i ≡ some v
    → (duo x y).store (places i)
      ≡ some (record {
        prev = places (before 2 i);
        next = places (after 2 i);
        value = v;
        last = i == 1;
      })
duo-cells x y zero v e =
    ap
      (λ o. elim o [
        | none ↦ none
        | some w ↦ some (record { prev = 20; next = 20; value = w; last = false })
      ])
      e
duo-cells x y (suc zero) v e =
    ap
      (λ o. elim o [
        | none ↦ none
        | some w ↦ some (record { prev = 10; next = 10; value = w; last = true })
      ])
      e
duo-cells x y (suc (suc i)) v e = cc

pub duo-Ring : {A : Type 0} (x y : A) → Ring (duo x y) (x ∷ y ∷ []) places 1
duo-Ring x y = record {
  sized = refl;
  head = refl;
  linked = record {
    nonzero = λ i h. ground arith;
    apart = λ i j h h' e. ground arith;
    cells = duo-cells x y;
  };
}

pub fresh_places : (i : ℕ) → places i ≢ 30
fresh_places i = ground arith

abbrev pair : LinkedList ℕ
pair = duo 7 9

push_back-Ring_example :
    (l' : LinkedList ℕ) × (push_back 30 4 pair ≡ ok l')
    × Ring l' (7 ∷ 9 ∷ 4 ∷ []) (behind places 2 30) 2
push_back-Ring_example =
    push_back-Ring 30 4 pair (omega arith) (omega arith) (7 ∷ 9 ∷ []) places (duo-Ring 7 9)
      (λ i h. fresh_places i)

remove-Ring_example :
    (l' : LinkedList ℕ) × (remove 10 pair ≡ ok l')
    × (l'.store 10 ≡ none)
    × Ring l' (9 ∷ []) (λ i. places (skip 0 i)) 0
remove-Ring_example =
    remove-Ring pair (7 ∷ 9 ∷ []) places 1 0 (duo-Ring 7 9) (omega arith) (omega arith)
      (omega arith)

visit-Ring_example : visit 3 10 pair ≡ ok (7 ∷ 9 ∷ [])
visit-Ring_example = visit-Ring pair (7 ∷ 9 ∷ []) places 1 (duo-Ring 7 9) refl

-- An index of 1 names the second element, one past the end the first again.
remove_index_run :
    (remove_index 1 pair >>= λ l. visit 2 l.first l) ≡ (remove 20 pair >>= λ l. visit 2 l.first l)
unfolding remove_index walk load
remove_index_run = refl

index_past_end : get_link 2 pair ≡ ok 10
unfolding get_link walk load
index_past_end = refl
