-- ===== src/LinkedList/Writes.antt =====
-- Assignments through pointers to the links of a list: kernel/src/util/storage.hh, LinkedList.
use neptun_os.Base.{
  ℕ, ◌<◌, ◌≡◌, refl, ap, ◌∙◌, sym, Bool, true, false, Option, none, some, List, ok, ◌==◌,
  if◌then◌else◌, length, get_elem?, set, length-set, get_elem?-set, get_elem?-of_lt,
  lt_of_get_elem?, inl, inr, Bool-cases, ==_iff, arith,
}
use neptun_os.LinkedList.{Link, LinkedList, load, put, set_next, set_prev, set_last, set_value}
use neptun_os.LinkedList.Ring.{Linked, Linked-cong}

-- A write that changes nothing.
keep : {B : Type 0} (f : ℕ → B) (j i : ℕ) → (if i == j then f j else f i) ≡ f i
keep f j i = elim (Bool-cases (i == j)) [
  | inl same ↦ let e : i ≡ j = (==_iff i j).0 same in rw same (ap f (sym e))
  | inr other ↦ rw other refl
]

module _ {ℓ} {A : Type ℓ} where
  -- Place `j` gets the pointers `p` and `n` and the flag `b`.
  Linked-put :
      {store : ℕ → Option (Link A)} {xs : List A} {at prev next : ℕ → ℕ} {last : ℕ → Bool} (j : ℕ)
      (y : A) (p n : ℕ) (b : Bool)
      → get_elem? xs j ≡ some y
      → Linked store xs at prev next last
      → Linked
          (λ q.
            if q == at j
            then some (record { prev = p; next = n; value = y; last = b })
            else store q)
          xs
          at
          (λ i. if i == j then p else prev i)
          (λ i. if i == j then n else next i)
          (λ i. if i == j then b else last i)
  Linked-put {xs} {at} j y p n b e k = record {
    nonzero = k.nonzero;
    apart = k.apart;
    cells = λ i x e'. elim (Bool-cases (i == j)) [
      | inl same ↦
          let i_eq : i ≡ j = (==_iff i j).0 same in
          let here : (at i == at j) ≡ true = (==_iff (at i) (at j)).1 (ap at i_eq) in
          let value : some y ≡ some x = sym e ∙ ap (get_elem? xs) (sym i_eq) ∙ e' in
          rw (here, same)
            (ap
              (λ t. elim t [
                | none ↦ none
                | some v ↦ some (record { prev = p; next = n; value = v; last = b })
              ])
              value)
      | inr other ↦
          let elsewhere : (at i == at j) ≡ false =
            ground (arith, k.apart i j (lt_of_get_elem? xs i x e') (lt_of_get_elem? xs j y e)) in
          rw (elsewhere, other) (k.cells i x e')
    ];
  }

  -- The assignments through a pointer to place `j`.
  pub record Assigned (l l' : LinkedList A) (xs : List A) (at prev next : ℕ → ℕ) (last : ℕ → Bool)
      : Type ℓ where
    pub first : l'.first ≡ l.first
    pub size : l'.size ≡ l.size
    pub linked : Linked l'.store xs at prev next last

  module _ (l : LinkedList A) (xs : List A) (at prev next : ℕ → ℕ) (last : ℕ → Bool)
      (k : Linked l.store xs at prev next last) (j : ℕ) (inside : j < length xs) where
    -- Reading the link at place `j`.
    pub load-Linked :
        (x : A) × (get_elem? xs j ≡ some x)
        × (load (at j) l ≡ ok (record { prev = prev j; next = next j; value = x; last = last j }))
    unfolding load
    load-Linked = let (x, e) = get_elem?-of_lt xs j inside in (x, e, rw (load, k.cells j x e) refl)

    pub load-Linked_elem :
        (x : A)
        → get_elem? xs j ≡ some x
        → load (at j) l ≡ ok (record { prev = prev j; next = next j; value = x; last = last j })
    unfolding load
    load-Linked_elem x e = rw (load, k.cells j x e) refl

    pub set_next-Assigned :
        (v : ℕ)
        → (l' : LinkedList A) × (set_next (at j) v l ≡ ok l')
          × Assigned l l' xs at prev (λ i. if i == j then v else next i) last
    unfolding set_next
    set_next-Assigned v =
        let (x, e, loaded) = load-Linked in
        (
          put (at j) (some (record { prev = prev j; next = v; value = x; last = last j })) l,
          rw loaded refl,
          record {
            first = refl;
            size = refl;
            linked =
                Linked-cong (λ i p. (keep prev j i, refl, keep last j i))
                  (Linked-put j x (prev j) v (last j) e k);
          },
        )

    pub set_prev-Assigned :
        (v : ℕ)
        → (l' : LinkedList A) × (set_prev (at j) v l ≡ ok l')
          × Assigned l l' xs at (λ i. if i == j then v else prev i) next last
    unfolding set_prev
    set_prev-Assigned v =
        let (x, e, loaded) = load-Linked in
        (
          put (at j) (some (record { prev = v; next = next j; value = x; last = last j })) l,
          rw loaded refl,
          record {
            first = refl;
            size = refl;
            linked =
                Linked-cong (λ i p. (refl, keep next j i, keep last j i))
                  (Linked-put j x v (next j) (last j) e k);
          },
        )

    pub set_last-Assigned :
        (v : Bool)
        → (l' : LinkedList A) × (set_last (at j) v l ≡ ok l')
          × Assigned l l' xs at prev next (λ i. if i == j then v else last i)
    unfolding set_last
    set_last-Assigned v =
        let (x, e, loaded) = load-Linked in
        (
          put (at j) (some (record { prev = prev j; next = next j; value = x; last = v })) l,
          rw loaded refl,
          record {
            first = refl;
            size = refl;
            linked =
                Linked-cong (λ i p. (keep prev j i, keep next j i, refl))
                  (Linked-put j x (prev j) (next j) v e k);
          },
        )

    -- Another element at place `j`.
    pub set_value-Assigned :
        (v : A)
        → (l' : LinkedList A) × (set_value (at j) v l ≡ ok l')
          × Assigned l l' (set xs j v) at prev next last
    unfolding set_value
    set_value-Assigned v =
        let (x, e, loaded) = load-Linked in
        let size : length (set xs j v) ≡ length xs = length-set xs j v in
        (
          put (at j) (some (record { prev = prev j; next = next j; value = v; last = last j })) l,
          rw loaded refl,
          record {
            first = refl;
            size = refl;
            linked = record {
              nonzero = λ i h. k.nonzero i (omega (arith, size));
              apart = λ i i' h h'. k.apart i i' (omega (arith, size)) (omega (arith, size));
              cells = λ i y e'. elim (Bool-cases (i == j)) [
                | inl same ↦
                    let i_eq : i ≡ j = (==_iff i j).0 same in
                    let here : (at i == at j) ≡ true = (==_iff (at i) (at j)).1 (ap at i_eq) in
                    let value : some v ≡ some y =
                      sym (get_elem?-set xs j i v inside ∙ rw same refl) ∙ e' in
                    rw (here, i_eq)
                      (ap
                        (λ t. elim t [
                          | none ↦ none
                          | some w ↦
                              some
                                (record { prev = prev j; next = next j; value = w; last = last j })
                        ])
                        value)
                | inr other ↦
                    let old : get_elem? xs i ≡ some y =
                      sym (get_elem?-set xs j i v inside ∙ rw other refl) ∙ e' in
                    let elsewhere : (at i == at j) ≡ false =
                      ground (arith, k.apart i j (lt_of_get_elem? xs i y old) inside) in
                    rw elsewhere (k.cells i y old)
              ];
            };
          },
        )
