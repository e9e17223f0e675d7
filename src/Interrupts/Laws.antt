-- ===== src/Interrupts/Laws.antt =====
-- Taking and giving back interrupt vectors: kernel/src/arch/amd64/idt.cc.
use neptun_os.Base.{
  ℕ, zero, suc, ◌+◌, ◌≤◌, ◌<◌, ◌≡◌, ◌≢◌, refl, ap, ◌∙◌, sym, true, false, Outcome, ok, fatal, ◌==◌,
  Bool-cases, inl, inr, arith,
}
use neptun_os.Interrupts.{set_handler, allocate_from, idt_allocate_vector, idt_deallocate_vector}

-- What a search of the vectors from `i` on, below `i + n`, answers.
pub data Search (on_interrupt handlerfun : ℕ) (handler : ℕ → ℕ) (i n : ℕ)
    : Outcome (ℕ × (ℕ → ℕ)) → Type 0 where
  taken :
      (v : ℕ)
      → i ≤ v
      → v < i + n
      → handler v ≡ on_interrupt
      → ((j : ℕ) → i ≤ j → j < v → handler j ≢ on_interrupt)
      → Search on_interrupt handlerfun handler i n (ok (v, set_handler v handlerfun handler))
  exhausted :
      ((j : ℕ) → i ≤ j → j < i + n → handler j ≢ on_interrupt)
      → Search on_interrupt handlerfun handler i n fatal

allocate_from-Search :
    (on_interrupt handlerfun n i : ℕ) (handler : ℕ → ℕ)
    → Search on_interrupt handlerfun handler i n (allocate_from on_interrupt handlerfun n i handler)
unfolding allocate_from
allocate_from-Search on h zero i handler = exhausted (λ j p q. absurd (omega (arith, p, q)))
allocate_from-Search on h (suc n) i handler = elim (Bool-cases (handler i == on)) [
  | inl free ↦ rw free (
      taken i (omega arith) (omega arith) (ground (arith, free))
        (λ j p q. absurd (omega (arith, p, q))))
  | inr used ↦ rw used (later used (allocate_from-Search on h n (i + 1) handler))
]
  where
    later :
        {r : Outcome (ℕ × (ℕ → ℕ))}
        → (handler i == on) ≡ false
        → Search on h handler (i + 1) n r
        → Search on h handler i (suc n) r
    later used (taken v low high free before) =
        taken v (omega arith) (omega arith) free (λ j p q. ground (arith, before j, used))
    later used (exhausted all) = exhausted (λ j p q. ground (arith, all j, used))

-- The first free vector from 0x21 on is taken, and there is none left only if all are in use.
pub idt_allocate_vector-Search :
    (on_interrupt handlerfun : ℕ) (handler : ℕ → ℕ)
    → Search on_interrupt handlerfun handler 0x21 223
        (idt_allocate_vector on_interrupt handlerfun handler)
unfolding idt_allocate_vector
idt_allocate_vector-Search on h handler = allocate_from-Search on h 223 0x21 handler

-- A vector that is given back is free, and the other handlers stay.
pub idt_deallocate_vector-set_handler :
    (on_interrupt handlerfun v : ℕ) (handler : ℕ → ℕ)
    → handler v ≡ on_interrupt
    → handlerfun ≢ on_interrupt
    → (handler' : ℕ → ℕ) × (idt_deallocate_vector on_interrupt v (set_handler v handlerfun handler)
        ≡ ok handler')
      × ((j : ℕ) → handler' j ≡ handler j)
unfolding idt_deallocate_vector set_handler
idt_deallocate_vector-set_handler on h v handler free real =
    let self : (v == v) ≡ true = ground arith in
    let taken_now : (h == on) ≡ false = ground arith in
    (
      set_handler v on (set_handler v h handler),
      rw (self, taken_now) refl,
      λ j. elim (Bool-cases (j == v)) [
        | inl here ↦ rw here (sym free ∙ ap handler (ground (arith, here)))
        | inr there ↦ rw there refl
      ],
    )
