-- ===== src/Async/Exclusion.antt =====
-- Mutual exclusion of kernel/src/util/async.hh, and that a free mutex is taken at once.
use neptun_os.Base.{ℕ, ◌≡◌, ◌≢◌, refl, sym, ◌∙◌, false, ◌==◌, arith}
use neptun_os.Async.{compare_exchange, attempt, unlock}
use neptun_os.Async.System.{
  System, Place, Step, Reachable, Steps, move_to, done, more, call_lock, spin, call_unlock, initial,
  later,
}

-- The variable is 0 and nobody is inside, or it is 1 and exactly one processor is.
pub data Consistent (s : System) : Type 0 where
  free : s.mutex.lockvar ≡ 0 → ((t : ℕ) → s.place t ≢ Place.inside) → Consistent s
  held :
      (owner : ℕ)
      → s.mutex.lockvar ≡ 1
      → s.place owner ≡ Place.inside
      → ((t : ℕ) → s.place t ≡ Place.inside → t ≡ owner)
      → Consistent s

Step-Consistent : {s s' : System} → Step s s' → Consistent s → Consistent s'
unfolding attempt unlock compare_exchange move_to
Step-Consistent {s} (call_lock t out) (free v none_in) = free v (λ u. ground (arith, none_in u))
Step-Consistent {s} (call_lock t out) (held owner v there only) =
    held owner v (ground (arith)) (λ u h. ground (arith, only u))
Step-Consistent {s} (spin t wait) (free v none_in) =
    held t (ground arith) (ground arith) (λ u h. ground (arith, none_in u))
Step-Consistent {s} (spin t wait) (held owner v there only) =
    held owner (ground arith) (ground arith) (λ u h. ground (arith, only u))
Step-Consistent {s} (call_unlock t in_it) (free v none_in) = absurd (none_in t in_it)
Step-Consistent {s} (call_unlock t in_it) (held owner v there only) =
    free refl (λ u. ground (arith, only u, only t))

pub Reachable-Consistent : {s : System} → Reachable s → Consistent s
Reachable-Consistent initial = free refl (λ t. ground arith)
Reachable-Consistent (later r step) = Step-Consistent step (Reachable-Consistent r)

-- In every state that interleaved calls of lock and unlock can reach, at most one processor is behind
-- its lock.
pub mutual_exclusion :
    {s : System} (t u : ℕ)
    → Reachable s
    → t ≢ u
    → s.place t ≡ Place.inside
    → s.place u ≢ Place.inside
mutual_exclusion t u r apart ht hu = elim (Reachable-Consistent r) [
  | free v none_in ↦ none_in t ht
  | held owner v there only ↦ apart (only t ht ∙ sym (only u hu))
]

-- From every state that interleaved calls of lock and unlock can reach, and for each processor that
-- spins, some steps lead to a state in which it has the mutex.
pub no_deadlock :
    {s : System} (t : ℕ)
    → Reachable s
    → s.place t ≡ Place.spinning
    → (s' : System) × Steps s s' × (s'.place t ≡ Place.inside)
unfolding attempt unlock compare_exchange move_to
no_deadlock {s} t r wait = elim (Reachable-Consistent r) [
  | free v none_in ↦ (_, more done (spin t wait), ground arith)
  | held owner v there only ↦
      let other : (t == owner) ≡ false = ground arith in
      (_, more (more done (call_unlock owner there)) (spin t (rw other wait)), ground arith)
]
