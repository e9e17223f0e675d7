-- ===== src/Interrupts.antt =====
-- The interrupt vectors of kernel/src/arch/amd64/idt.cc. A handler is its address, and `on_interrupt` that of
-- onInterrupt, which a free vector has.
pub mod Laws
use neptun_os.Base.{
  ℕ, zero, suc, ◌+◌, ◌-◌, ◌/◌, ◌%◌, ◌^◌, Bool, true, false, Outcome, ok, fatal, ◌==◌, if◌then◌else◌,
}

pub record IdtEntry : Type 0 where
  pub base0 : ℕ
  pub base1 : ℕ
  pub base2 : ℕ
  pub ss : ℕ
  pub ist : ℕ
  pub gate_type : ℕ
  pub dpl : ℕ
  pub present : ℕ

-- The entry that idt_add_entry writes.
unfoldable pub idt_add_entry : (isr type : ℕ) → IdtEntry
idt_add_entry isr type = record {
  base0 = isr % 2 ^ 16;
  base1 = isr % 2 ^ 32 / 2 ^ 16;
  base2 = isr / 2 ^ 32;
  ss = 0x08;
  ist = 1;
  gate_type = type;
  dpl = 0;
  present = 1;
}

unfoldable pub set_handler : (i h : ℕ) → (ℕ → ℕ) → ℕ → ℕ
set_handler i h handler j = if j == i then h else handler j

-- The loop over the vectors from `i` on, with the rounds left.
unfoldable pub allocate_from :
    (on_interrupt handlerfun : ℕ) → (rounds i : ℕ) → (ℕ → ℕ) → Outcome (ℕ × (ℕ → ℕ))
unfolding set_handler
allocate_from on_interrupt handlerfun zero i handler = fatal
allocate_from on_interrupt handlerfun (suc k) i handler =
    let rest = allocate_from on_interrupt handlerfun k (i + 1) handler in
    if handler i == on_interrupt then ok (i, set_handler i handlerfun handler) else rest

unfoldable pub idt_allocate_vector : (on_interrupt handlerfun : ℕ) → (ℕ → ℕ) → Outcome (ℕ × (ℕ → ℕ))
unfolding allocate_from
idt_allocate_vector on_interrupt handlerfun handler =
    allocate_from on_interrupt handlerfun (256 - 0x21) 0x21 handler

unfoldable pub idt_deallocate_vector : (on_interrupt vector : ℕ) → (ℕ → ℕ) → Outcome (ℕ → ℕ)
unfolding set_handler
idt_deallocate_vector on_interrupt vector handler =
    if handler vector == on_interrupt then fatal else ok (set_handler vector on_interrupt handler)
