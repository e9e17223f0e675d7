-- ===== src/LinkedList/Push.antt =====
-- Adding an element at either end of a linked list.
use neptun_os.Base.{
  ℕ, zero, suc, ◌+◌, ◌-◌, ◌%◌, ◌<◌, ◌≡◌, ◌≢◌, refl, ap, ◌∙◌, sym, Bool, true, false, List, [], ◌∷◌,
  ◌++◌, ok, fatal, some, ◌==◌, if◌then◌else◌, length, length-append, get_elem?,
  get_elem?-append_last, lt_of_get_elem?, arith,
}
use neptun_os.Bits.{u64_mod}
use neptun_os.LinkedList.{
  LinkedList, load, put, single, set_next, set_prev, set_last, push_back, push_front,
}
use neptun_os.LinkedList.Ring.{
  Linked, Ring, before, after, Linked-nil, Linked-cong, Linked-new, Linked-map, Linked-at,
}
use neptun_os.LinkedList.Writes.{
  load-Linked, set_next-Assigned, set_prev-Assigned, set_last-Assigned,
}

-- the addresses with one more behind the first `n`
abbrev pub behind : (ℕ → ℕ) → (n fresh : ℕ) → ℕ → ℕ
behind at n fresh i = if i == n then fresh else at i

module _ {ℓ} {A : Type ℓ} (fresh : ℕ) (y : A) (l : LinkedList A) (real : fresh ≢ 0)
    (counted : l.size + 1 < u64_mod) where
  single-Ring : (at : ℕ → ℕ) → l.size ≡ 0 → Ring (single fresh y l) (y ∷ []) (behind at 0 fresh) 0
  single-Ring at empty = record {
    sized = omega arith;
    head = refl;
    linked =
        Linked-cong {xs = y ∷ []} (λ i h. ground arith)
          (Linked-new {xs = []} {at = at} {prev = λ i. 0} {next = λ i. 0} {last = λ i. false} fresh
            y fresh fresh true real (λ i h. absurd (omega (arith, h))) (Linked-nil l.store at));
  }

  -- On a ring whose last link is flagged, and with a new address and a size that does not wrap,
  -- push_back never faults: the list of the elements grows by one at its end, and the new link is the
  -- flagged one.
  pub push_back-Ring :
      (xs : List A) (at : ℕ → ℕ)
      → Ring l xs at (length xs - 1)
      → ((i : ℕ) → i < length xs → at i ≢ fresh)
      → (l' : LinkedList A) × (push_back fresh y l ≡ ok l')
        × Ring l' (xs ++ y ∷ []) (behind at (length xs) fresh) (length xs)
  unfolding push_back
  push_back-Ring [] at r new =
      let null : (l.first == 0) ≡ true = ground (arith, r.head) in
      (single fresh y l, rw null refl, single-Ring at r.sized)
  push_back-Ring (x ∷ xs) at r new =
      let n : ℕ = length (x ∷ xs) in
      let at' = behind at n fresh in
      let here : l.first ≡ at' 0 = ground (arith, r.head) in
      let end : at (before n 0) ≡ at' (n - 1) = ground arith in
      let (x0, e0, loaded) = load-Linked l (x ∷ xs) at _ _ _ r.linked 0 (omega arith) in
      let l1 : LinkedList A =
        put fresh
          (some (record { prev = at (before n 0); next = l.first; value = y; last = false }))
          (record l { size = (l.size + 1) % u64_mod }) in
      let k1 = Linked-new fresh y (at (before n 0)) l.first false real new r.linked in
      let size : length ((x ∷ xs) ++ y ∷ []) ≡ n + 1 = length-append (x ∷ xs) (y ∷ []) in
      let (l2, e2, a2) =
        set_next-Assigned l1 ((x ∷ xs) ++ y ∷ []) at' _ _ _ k1 (n - 1) (omega (arith, size))
          fresh in
      let (z, ez, marked) =
        load-Linked l2 ((x ∷ xs) ++ y ∷ []) at' _ _ _ a2.linked (n - 1) (omega (arith, size)) in
      let (l3, e3, a3) =
        set_last-Assigned l2 ((x ∷ xs) ++ y ∷ []) at' _ _ _ a2.linked (n - 1) (omega (arith, size))
          false in
      let (l4, e4, a4) =
        set_prev-Assigned l3 ((x ∷ xs) ++ y ∷ []) at' _ _ _ a3.linked 0 (omega (arith, size))
          fresh in
      let (l5, e5, a5) =
        set_last-Assigned l4 ((x ∷ xs) ++ y ∷ []) at' _ _ _ a4.linked n (omega (arith, size))
          true in
      let non_null : (l.first == 0) ≡ false = ground (arith, r.head, r.linked.nonzero 0) in
      let at_first : l.first ≡ at 0 = ground (arith, r.head) in
      let at_new : fresh ≡ at' n = ground arith in
      let first_read = ap (λ t. load t l) at_first ∙ loaded in
      let next_set = ap (λ t. set_next t fresh l1) end ∙ e2 in
      let end_read = ap (λ t. load t l2) end ∙ marked in
      let flag : (if n - 1 == n then false else n - 1 == n - 1) ≡ true = ground arith in
      let unflagged = ap (λ t. set_last t false l2) end ∙ e3 in
      let prev_set = ap (λ t. set_prev t fresh l3) here ∙ e4 in
      let flagged = ap (λ t. set_last t true l4) at_new ∙ e5 in
      (
        l5,
        rw (non_null, first_read, next_set, end_read, flag, unflagged, prev_set) flagged,
        record {
          sized = omega (arith, a2.size, a3.size, a4.size, a5.size, r.sized, size);
          head = ground (arith, a2.first, a3.first, a4.first, a5.first, here, size);
          linked = Linked-cong (λ i h. ground (arith, size, here)) a5.linked;
        },
      )

  get_elem?-rotate :
      (xs : List A) (i : ℕ) (x : A)
      → get_elem? (y ∷ xs) i ≡ some x
      → get_elem? (xs ++ y ∷ []) (if i == 0 then length xs else i - 1) ≡ some x
  get_elem?-rotate xs zero x e =
      let end : (length xs == length xs) ≡ true = ground arith in
      get_elem?-append_last xs y (length xs) ∙ rw end e
  get_elem?-rotate xs (suc i) x e =
      let place : (if suc i == 0 then length xs else suc i - 1) ≡ i = ground arith in
      let old : (i == length xs) ≡ false = ground (arith, lt_of_get_elem? xs i x e) in
      rw place (get_elem?-append_last xs y i ∙ rw old e)

  -- `push_front` puts the element in front of the others; the flag stays with its link.
  pub push_front-Ring :
      (xs : List A) (at : ℕ → ℕ) (mark : ℕ)
      → Ring l xs at mark
      → ((i : ℕ) → i < length xs → at i ≢ fresh)
      → (l' : LinkedList A) × (push_front fresh y l ≡ ok l')
        × Ring l'
            (y ∷ xs)
            (λ i. if i == 0 then fresh else at (i - 1))
            (if length xs == 0 then 0 else mark + 1)
  unfolding push_front
  push_front-Ring [] at mark r new =
      let null : (l.first == 0) ≡ true = ground (arith, r.head) in
      let s = single-Ring at r.sized in
      (
        single fresh y l,
        rw null refl,
        record {
          sized = s.sized;
          head = refl;
          linked = Linked-cong (λ i h. ground arith) (Linked-at (λ i h. ground arith) s.linked);
        },
      )
  push_front-Ring (x ∷ xs) at mark r new =
      let n : ℕ = length (x ∷ xs) in
      let at' = behind at n fresh in
      let here : l.first ≡ at' 0 = ground (arith, r.head) in
      let end : at (before n 0) ≡ at' (n - 1) = ground arith in
      let (x0, e0, loaded) = load-Linked l (x ∷ xs) at _ _ _ r.linked 0 (omega arith) in
      let l1 : LinkedList A =
        put fresh
          (some (record { prev = at (before n 0); next = l.first; value = y; last = false }))
          (record l { size = (l.size + 1) % u64_mod }) in
      let k1 = Linked-new fresh y (at (before n 0)) l.first false real new r.linked in
      let size : length ((x ∷ xs) ++ y ∷ []) ≡ n + 1 = length-append (x ∷ xs) (y ∷ []) in
      let (l2, e2, a2) =
        set_next-Assigned l1 ((x ∷ xs) ++ y ∷ []) at' _ _ _ k1 (n - 1) (omega (arith, size))
          fresh in
      let (l3, e3, a3) =
        set_prev-Assigned l2 ((x ∷ xs) ++ y ∷ []) at' _ _ _ a2.linked 0 (omega (arith, size))
          fresh in
      let non_null : (l.first == 0) ≡ false = ground (arith, r.head, r.linked.nonzero 0) in
      let at_first : l.first ≡ at 0 = ground (arith, r.head) in
      let first_read = ap (λ t. load t l) at_first ∙ loaded in
      let next_set = ap (λ t. set_next t fresh l1) end ∙ e2 in
      let prev_set = ap (λ t. set_prev t fresh l2) here ∙ e3 in
      (
        record l3 { first = fresh },
        rw (non_null, first_read, next_set, prev_set) refl,
        record {
          sized = omega (arith, a2.size, a3.size, r.sized);
          head = ground arith;
          linked =
              Linked-cong {at = λ i. if i == 0 then fresh else at (i - 1)}
                (λ i h. ground (arith, at_first))
                (Linked-at (λ i h. ground arith)
                  (Linked-map (y ∷ x ∷ xs) (λ i. if i == 0 then n else i - 1)
                    (λ i h. ground (arith, size)) (get_elem?-rotate (x ∷ xs))
                    (λ i j h h' e. ground (arith, e)) a3.linked));
        },
      )

module _ {ℓ} {A : Type ℓ} (fresh : ℕ) (y : A) (l : LinkedList A) (real : fresh ≢ 0) where
  -- Where the link before the first carries no flag, the assertion fails.
  pub push_back-eq-fatal :
      (xs : List A) (at : ℕ → ℕ) (last : ℕ → Bool)
      → 0 < length xs
      → l.first ≡ at 0
      → Linked l.store xs at (λ i. at (before (length xs) i)) (λ i. at (after (length xs) i)) last
      → last (before (length xs) 0) ≡ false
      → ((i : ℕ) → i < length xs → at i ≢ fresh)
      → push_back fresh y l ≡ fatal
  unfolding push_back
  push_back-eq-fatal xs at last some_x at_first k unflagged new =
      let n : ℕ = length xs in
      let at' = behind at n fresh in
      let end : at (before n 0) ≡ at' (n - 1) = ground arith in
      let (x0, e0, loaded) = load-Linked l xs at _ _ _ k 0 some_x in
      let l1 : LinkedList A =
        put fresh
          (some (record { prev = at (before n 0); next = l.first; value = y; last = false }))
          (record l { size = (l.size + 1) % u64_mod }) in
      let k1 = Linked-new fresh y (at (before n 0)) l.first false real new k in
      let size : length (xs ++ y ∷ []) ≡ n + 1 = length-append xs (y ∷ []) in
      let (l2, e2, a2) =
        set_next-Assigned l1 (xs ++ y ∷ []) at' _ _ _ k1 (n - 1) (omega (arith, size)) fresh in
      let (z, ez, marked) =
        load-Linked l2 (xs ++ y ∷ []) at' _ _ _ a2.linked (n - 1) (omega (arith, size)) in
      let non_null : (l.first == 0) ≡ false = ground (arith, at_first, k.nonzero 0) in
      let first_read = ap (λ t. load t l) at_first ∙ loaded in
      let next_set = ap (λ t. set_next t fresh l1) end ∙ e2 in
      let end_read = ap (λ t. load t l2) end ∙ marked in
      let last_place : before n 0 ≡ n - 1 = ground arith in
      let old : (n - 1 == n) ≡ false = ground arith in
      let flag : (if n - 1 == n then false else last (n - 1)) ≡ false =
        rw old (ap last (sym last_place) ∙ unflagged) in
      rw (non_null, first_read, next_set, end_read, flag) refl
