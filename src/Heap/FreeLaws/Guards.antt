-- ===== src/Heap/FreeLaws/Guards.antt =====
-- What `check`, and with it `free_nomutex`, catches.
use neptun_os.Base.{
  ℕ, zero, suc, ◌+◌, ◌-◌, ◌≤◌, ◌<◌, ◌≡◌, ◌≢◌, ◌⊎◌, refl, ◌∙◌, ap, true, false, some, fatal, arith,
  leb, ◌==◌, inl, inr, Bool-cases,
}
use neptun_os.Bits.{u64_mod}
use neptun_os.Heap.{Heap}
use neptun_os.Heap.Links.{Cursor}
use neptun_os.Heap.Memory.{memchk, redzone_size, redzone_magic}
use neptun_os.Heap.Ops.{starts_at, find_at, intact, check, free_nomutex, sub64}
use neptun_os.Heap.Sums.{StandsIn}
use neptun_os.Heap.Layout.{IsValid}
use neptun_os.Heap.FreeLaws.Release.{find_at-StandsIn}

-- `memchk` finds a byte that is not `c`.
pub memchk_finds :
    (memory : ℕ → ℕ) (a c n x : ℕ) → a ≤ x → x < a + n → memory x ≢ c → memchk memory a c n ≡ true
unfolding memchk
memchk_finds memory a c zero x p q ne = absurd (omega arith)
memchk_finds memory a c (suc n) x p q ne = elim (Bool-cases (x == a + n)) [
  | inl e ↦ ground arith
  | inr e ↦ ground (arith, memchk_finds memory a c n x p)
]

-- A region of `c` only passes.
pub memchk_passes :
    (memory : ℕ → ℕ) (a c n : ℕ)
    → ((x : ℕ) → a ≤ x → x < a + n → memory x ≡ c)
    → memchk memory a c n ≡ false
unfolding memchk
memchk_passes memory a c zero same = refl
memchk_passes memory a c (suc n) same =
    ground (arith, same (a + n), memchk_passes memory a c n (λ x p q. same x p (omega arith)))

-- Address `x` lies in one of the two redzones of the block at the cursor.
abbrev pub InRedzone : Cursor → ℕ → Type 0
InRedzone c x =
    ((c.address ≤ x) × (x < c.address + redzone_size))
    ⊎ ((c.address + c.link.length - redzone_size ≤ x) × (x < c.address + c.link.length))

not_intact :
    (h : Heap) (c : Cursor) (x : ℕ)
    → InRedzone c x
    → h.memory x ≢ redzone_magic
    → intact h c ≡ false
unfolding intact
not_intact h c x (inl (p, q)) ne =
    ground (arith, memchk_finds h.memory c.address redzone_magic redzone_size x p q ne)
not_intact h c x (inr (p, q)) ne = elim (Bool-cases (leb 144 c.link.length)) [
  | inl long ↦ ground (
    arith,
    memchk_finds h.memory (c.address + c.link.length - redzone_size) redzone_magic redzone_size x p,
  )
  | inr short ↦ ground arith
]

check_fatal :
    (h : Heap) (p : ℕ) (c : Cursor)
    → find_at (sub64 p redzone_size) h ≡ some c
    → intact h c ≡ false
    → check p h ≡ fatal
unfolding check
check_fatal h p c found broken = rw (check, found, broken)

-- Freeing a block of a well-formed heap is fatal if some byte of its two redzones does not hold the
-- magic value.
pub free_nomutex-corrupt :
    (h : Heap) (p : ℕ) (c : Cursor) (x : ℕ)
    → IsValid h
    → redzone_size ≤ p
    → p < u64_mod
    → StandsIn h.links h.heap_base (starts_at (p - redzone_size)) c
    → InRedzone c x
    → h.memory x ≢ redzone_magic
    → free_nomutex p h ≡ fatal
unfolding free_nomutex
free_nomutex-corrupt h p c x v low high at zone ne =
    let start : sub64 p redzone_size ≡ p - redzone_size = omega arith in
    let found = ap (λ t. find_at t h) start ∙ find_at-StandsIn h (p - redzone_size) c v.sizes at in
    let non_null : (p == 0) ≡ false = ground arith in
    rw (non_null, check_fatal h p c found (not_intact h c x zone ne))
