-- ===== src/LinkedList/Ring.antt =====
-- What a linked list stands for: the list of its elements, in the order of the `next` pointers.
use neptun_os.Base.{
  ℕ, ◌+◌, ◌-◌, ◌<◌, ◌≡◌, ◌≢◌, refl, ap, ◌∙◌, sym, Bool, true, false, Option, none, some, List, ◌==◌,
  [], ◌∷◌, ◌++◌, length-append, get_elem?-append_last, if◌then◌else◌, length, get_elem?,
  lt_of_get_elem?, inl, inr, Bool-cases, ==_iff, arith,
}
use neptun_os.LinkedList.{Link, LinkedList}

-- The links at the addresses `at 0`, `at 1`, … hold the elements of `xs`, and the pointers and flags given by
-- the functions `prev`, `next` and `last` of the place.
pub record Linked {ℓ} {A : Type ℓ} (store : ℕ → Option (Link A)) (xs : List A)
    (at prev next : ℕ → ℕ) (last : ℕ → Bool) : Type ℓ where
  pub nonzero : (i : ℕ) → i < length xs → at i ≢ 0
  pub apart : (i j : ℕ) → i < length xs → j < length xs → at i ≡ at j → i ≡ j
  pub cells :
      (i : ℕ) (x : A)
      → get_elem? xs i ≡ some x
      → store (at i) ≡ some (record { prev = prev i; next = next i; value = x; last = last i })

-- the neighbours of place `i` in a ring of `n` places
abbrev pub before : ℕ → ℕ → ℕ
before n i = if i == 0 then n - 1 else i - 1

abbrev pub after : ℕ → ℕ → ℕ
after n i = if i + 1 == n then 0 else i + 1

-- The list `l` is a ring of the elements `xs`; the link at place `mark` is flagged as the last.
pub record Ring {ℓ} {A : Type ℓ} (l : LinkedList A) (xs : List A) (at : ℕ → ℕ) (mark : ℕ)
    : Type ℓ where
  pub sized : l.size ≡ length xs
  pub head : l.first ≡ (if length xs == 0 then 0 else at 0)
  pub linked :
      Linked l.store xs at
        (λ i. at (before (length xs) i))
        (λ i. at (after (length xs) i))
        (λ i. i == mark)

pub Linked-nil {ℓ} :
    {A : Type ℓ} (store : ℕ → Option (Link A)) (at : ℕ → ℕ)
    → Linked store [] at (λ i. 0) (λ i. 0) (λ i. false)
Linked-nil store at = record {
  nonzero = λ i h. absurd (omega arith);
  apart = λ i j h. absurd (omega arith);
  cells = λ i x e. cc;
}

module _ {ℓ} {A : Type ℓ} where
  -- Only the places of the list count.
  pub Linked-cong :
      {store : ℕ → Option (Link A)} {xs : List A} {at prev next prev' next' : ℕ → ℕ}
      {last last' : ℕ → Bool}
      → ((i : ℕ) → i < length xs → (prev i ≡ prev' i) × (next i ≡ next' i) × (last i ≡ last' i))
      → Linked store xs at prev next last
      → Linked store xs at prev' next' last'
  Linked-cong {xs} same k = record {
    nonzero = k.nonzero;
    apart = k.apart;
    cells = λ i x e.
        let (p, n, t) = same i (lt_of_get_elem? xs i x e) in k.cells i x e ∙ rw (p, n, t) refl;
  }

  pub Linked-at :
      {store : ℕ → Option (Link A)} {xs : List A} {at at' prev next : ℕ → ℕ} {last : ℕ → Bool}
      → ((i : ℕ) → i < length xs → at i ≡ at' i)
      → Linked store xs at prev next last
      → Linked store xs at' prev next last
  Linked-at {store} {xs} {at} {at'} same k = record {
    nonzero = λ i h e. k.nonzero i h (same i h ∙ e);
    apart = λ i j h h' e. k.apart i j h h' (same i h ∙ e ∙ sym (same j h'));
    cells = λ i x e. ap store (sym (same i (lt_of_get_elem? xs i x e))) ∙ k.cells i x e;
  }

  -- A new link behind the others.
  pub Linked-new :
      {store : ℕ → Option (Link A)} {xs : List A} {at prev next : ℕ → ℕ} {last : ℕ → Bool}
      (fresh : ℕ) (y : A) (p n : ℕ) (b : Bool)
      → fresh ≢ 0
      → ((i : ℕ) → i < length xs → at i ≢ fresh)
      → Linked store xs at prev next last
      → Linked
          (λ q.
            if q == fresh
            then some (record { prev = p; next = n; value = y; last = b })
            else store q)
          (xs ++ y ∷ [])
          (λ i. if i == length xs then fresh else at i)
          (λ i. if i == length xs then p else prev i)
          (λ i. if i == length xs then n else next i)
          (λ i. if i == length xs then b else last i)
  Linked-new {xs} {at} fresh y p n b real new k = record {
    nonzero = λ i h. ground (arith, k.nonzero i, length-append xs (y ∷ []));
    apart = λ i j h h'. ground (arith, k.apart i j, new i, new j, length-append xs (y ∷ []));
    cells = λ i x e. elim (Bool-cases (i == length xs)) [
      | inl same ↦
          let self : (fresh == fresh) ≡ true = (==_iff fresh fresh).1 refl in
          let value : some y ≡ some x = sym (get_elem?-append_last xs y i ∙ rw same refl) ∙ e in
          rw (same, self)
            (ap
              (λ t. elim t [
                | none ↦ none
                | some v ↦ some (record { prev = p; next = n; value = v; last = b })
              ])
              value)
      | inr other ↦
          let old : get_elem? xs i ≡ some x =
            sym (get_elem?-append_last xs y i ∙ rw other refl) ∙ e in
          let elsewhere : (at i == fresh) ≡ false =
            ground (arith, new i (lt_of_get_elem? xs i x old)) in
          rw (other, elsewhere) (k.cells i x old)
    ];
  }

  -- The same links in another order, or some of them: place `i` of `ys` is place `ρ i` of `xs`.
  pub Linked-map :
      {store : ℕ → Option (Link A)} {xs : List A} {at prev next : ℕ → ℕ} {last : ℕ → Bool}
      (ys : List A) (ρ : ℕ → ℕ)
      → ((i : ℕ) → i < length ys → ρ i < length xs)
      → ((i : ℕ) (x : A) → get_elem? ys i ≡ some x → get_elem? xs (ρ i) ≡ some x)
      → ((i j : ℕ) → i < length ys → j < length ys → ρ i ≡ ρ j → i ≡ j)
      → Linked store xs at prev next last
      → Linked store ys (λ i. at (ρ i)) (λ i. prev (ρ i)) (λ i. next (ρ i)) (λ i. last (ρ i))
  Linked-map ys ρ inside same apart k = record {
    nonzero = λ i h. k.nonzero (ρ i) (inside i h);
    apart = λ i j h h' e. apart i j h h' (k.apart (ρ i) (ρ j) (inside i h) (inside j h') e);
    cells = λ i x e. k.cells (ρ i) x (same i x e);
  }
