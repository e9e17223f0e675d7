-- ===== src/Scheduler/Turns.antt =====
-- Whose turn it is: kernel/src/scheduler/scheduler.cc, sched_tick.
use native.Mathlib.Nat.{mod-eq_of_lt, add-zero, add-mod_right}
use neptun_os.Base.{
  ℕ, ◌+◌, ◌-◌, ◌%◌, ◌<◌, ◌≤◌, ltb, ◌≡◌, refl, ap, ◌∙◌, sym, Bool, true, false, ◌||◌, ◌&&◌, not,
  none, some, List, Outcome, ok, ◌>>=◌, ◌==◌, if◌then◌else◌, length, get_elem?, set, [], ◌∷◌,
  Bool-cases, inl, inr, length-set, get_elem?-set, get_elem?-of_lt, arith,
}
use neptun_os.Async.{compare_exchange, attempt, unlock}
use neptun_os.LinkedList.{Link, load, set_value}
use neptun_os.LinkedList.Ring.{Ring, before, after}
use neptun_os.LinkedList.Writes.{load-Linked_elem, set_value-Assigned}
use neptun_os.LinkedList.Walk.{after_mod}
use neptun_os.Scheduler.{
  CpuState, Task, Sched, lock, release, set_current, retire, switch, sched_tick,
}

-- The ring holds the tasks `ts`, the processor runs the one at place `i`, and no call is under way.
pub record Ready (s : Sched) (cpu : ℕ) (ts : List Task) (at : ℕ → ℕ) (mark i : ℕ) : Type 0 where
  pub ring : Ring s.tasks ts at mark
  pub inside : i < length ts
  pub turn : s.current cpu ≡ at i
  pub unlocked : s.mutex.lockvar ≡ 0

-- the tasks once the registers of place `i` are saved
abbrev pub saved : CpuState → List ℕ → Task → Task
saved state sse t = record t { state = state; ssestate = sse }

pub lock_free :
    (s : Sched) → s.mutex.lockvar ≡ 0 → lock s ≡ ok (record s { mutex = record { lockvar = 1 } })
unfolding lock attempt compare_exchange
lock_free s e = ground arith

-- A tick that comes to its end, in terms of what its parts give.
pub sched_tick_steps :
    (cpu : ℕ) (state : CpuState) (force : Bool) (s s2 : Sched) (k n : Link Task) (ending : Bool)
    → (s.running || force) ≡ true
    → s.mutex.lockvar ≡ 0
    → load (s.current cpu) s.tasks ≡ ok k
    → k.value.scheduled_for_deletion ≡ ending
    → (if ending
        then retire cpu k (record s { mutex = record { lockvar = 1 } })
        else switch cpu state k (record s { mutex = record { lockvar = 1 } }))
      ≡ ok s2
    → load (s2.current cpu) s2.tasks ≡ ok n
    → sched_tick cpu state force s
      ≡ ok (release (record s2 { sse_state = n.value.ssestate }), some n.value.state)
unfolding sched_tick
sched_tick_steps cpu state force s s2 k n ending runs unlocked read flag taken next =
    let runs' : (not s.running && not force) ≡ false = ground (arith, runs) in
    let s1 : Sched = record s { mutex = record { lockvar = 1 } } in
    let taken' = ap (λ b. if b then retire cpu k s1 else switch cpu state k s1) flag ∙ taken in
    rw (runs', lock_free s unlocked, read, taken', next) refl

module _ (cpu : ℕ) (s : Sched) (ts : List Task) (at : ℕ → ℕ) (mark i : ℕ)
    (r : Ready s cpu ts at mark i) (state : CpuState) (force : Bool) where
  -- A tick on a ready scheduler that is running or forced, with a current task that is not to be
  -- deleted, saves the registers in that task, loads those of the task behind it in the ring, changes
  -- no other task, and leaves the scheduler ready.
  pub sched_tick-Ready :
      (t : Task)
      → get_elem? ts i ≡ some t
      → t.scheduled_for_deletion ≡ false
      → (s.running || force) ≡ true
      → (s' : Sched) × (n : Task) × (sched_tick cpu state force s ≡ ok (s', some n.state))
        × (get_elem? (set ts i (saved state s.sse_state t)) (after (length ts) i) ≡ some n)
        × (s'.sse_state ≡ n.ssestate)
        × (s'.running ≡ s.running)
        × Ready s' cpu (set ts i (saved state s.sse_state t)) at mark (after (length ts) i)
  unfolding sched_tick switch set_current release unlock
  sched_tick-Ready t e alive runs =
      let s1 : Sched = record s { mutex = record { lockvar = 1 } } in
      let ts' = set ts i (saved state s.sse_state t) in
      let loaded = load-Linked_elem s.tasks ts at _ _ _ r.ring.linked i r.inside t e in
      let (l, e1, a1) =
        set_value-Assigned s.tasks ts at _ _ _ r.ring.linked i r.inside
          (saved state s.sse_state t) in
      let size : length ts' ≡ length ts = length-set ts i (saved state s.sse_state t) in
      let next_in : after (length ts) i < length ts' = ground (arith, size, r.inside) in
      let (n, en) = get_elem?-of_lt ts' (after (length ts) i) next_in in
      let loaded1 = load-Linked_elem l ts' at _ _ _ a1.linked (after (length ts) i) next_in n en in
      let read = ap (λ p. load p s.tasks) r.turn ∙ loaded in
      let wrote = ap (λ p. set_value p (saved state s.sse_state t) s.tasks) r.turn ∙ e1 in
      let self : (cpu == cpu) ≡ true = ground arith in
      let k : Link Task = record {
        prev = at (before (length ts) i);
        next = at (after (length ts) i);
        value = t;
        last = i == mark;
      } in
      let k' : Link Task = record {
        prev = at (before (length ts) (after (length ts) i));
        next = at (after (length ts) (after (length ts) i));
        value = n;
        last = after (length ts) i == mark;
      } in
      let s2 : Sched = record s1 {
        tasks = l;
        current = set_current cpu (at (after (length ts) i)) s.current;
      } in
      (
        release (record s2 { sse_state = n.ssestate }),
        n,
        sched_tick_steps cpu state force s s2 k k' false runs r.unlocked read alive (rw wrote refl)
            (rw self loaded1),
        en,
        refl,
        refl,
        record {
          ring = record {
            sized = omega (arith, a1.size, r.ring.sized, size);
            head = ground (arith, a1.first, r.ring.head, size);
            linked = rw size a1.linked;
          };
          inside = next_in;
          turn = rw self refl;
          unlocked = refl;
        },
      )

-- Calls of sched_tick for one processor, one after the other, each with the registers it finds. The timer makes
-- one at each interrupt whose count is a multiple of SCHED_QUANTUM.
unfoldable pub ticks : (cpu : ℕ) → List CpuState → Sched → Outcome Sched
ticks cpu [] s = ok s
ticks cpu (state ∷ states) s = sched_tick cpu state false s >>= λ (s', _). ticks cpu states s'

-- None of the tasks is to be deleted.
abbrev pub AllAlive : List Task → Type 0
AllAlive ts = (j : ℕ) (t : Task) → get_elem? ts j ≡ some t → t.scheduled_for_deletion ≡ false

set-AllAlive :
    (ts : List Task) (i : ℕ) (t : Task) (state : CpuState) (sse : List ℕ)
    → i < length ts
    → get_elem? ts i ≡ some t
    → AllAlive ts
    → AllAlive (set ts i (saved state sse t))
set-AllAlive ts i t state sse inside e alive j u h = elim (Bool-cases (j == i)) [
  | inl same ↦
      let new : some (saved state sse t) ≡ some u =
        sym (get_elem?-set ts i j (saved state sse t) inside ∙ rw same refl) ∙ h in
      ap (λ o. elim o [ none ↦ false | some v ↦ v.scheduled_for_deletion ]) (sym new) ∙ alive i t e
  | inr other ↦
      alive j u (sym (get_elem?-set ts i j (saved state sse t) inside ∙ rw other refl) ∙ h)
]

ticks-Ready :
    (cpu : ℕ) (states : List CpuState) (s : Sched) (ts : List Task) (at : ℕ → ℕ) (mark i : ℕ)
    → Ready s cpu ts at mark i
    → AllAlive ts
    → s.running ≡ true
    → (s' : Sched) × (ticks cpu states s ≡ ok s')
      × (s'.current cpu ≡ at ((i + length states) % length ts))
unfolding ticks
ticks-Ready cpu [] s ts at mark i r alive runs =
    (s, refl, r.turn ∙ ap at (sym (rw add-zero (mod-eq_of_lt r.inside))))
ticks-Ready cpu (state ∷ states) s ts at mark i r alive runs =
    let (t, e) = get_elem?-of_lt ts i r.inside in
    let (s1, n, stepped, en, loaded, runs1, r1) =
      sched_tick-Ready cpu s ts at mark i r state false t e (alive i t e) (rw runs refl) in
    let ts' = set ts i (saved state s.sse_state t) in
    let size : length ts' ≡ length ts = length-set ts i (saved state s.sse_state t) in
    let (s', later, turn) =
      ticks-Ready cpu states s1 ts' at mark (after (length ts) i) r1
        (set-AllAlive ts i t state s.sse_state r.inside e alive) (runs1 ∙ runs) in
    (
      s',
      rw stepped later,
      turn
          ∙ ap at (
              ap (λ m. (after (length ts) i + length states) % m) size
              ∙ after_mod (length ts) i (length states) r.inside),
    )

turn_mod : (n i j : ℕ) → i < n → j < n → ((i + (j + n - i) % n) % n) ≡ j
turn_mod n i j h h' = elim (Bool-cases (ltb j i)) [
  | inl below ↦
      let few : (j + n - i) % n ≡ j + n - i = mod-eq_of_lt (ground arith) in
      let sum : i + (j + n - i) ≡ j + n = omega arith in
      rw (few, sum) (add-mod_right _ _ ∙ mod-eq_of_lt h')
  | inr above ↦
      let i_le : i ≤ j = ground arith in
      let all : j + n - i ≡ (j - i) + n = omega (arith, i_le) in
      let few : (j - i + n) % n ≡ j - i = add-mod_right _ _ ∙ mod-eq_of_lt (omega arith) in
      let sum : i + (j - i) ≡ j = omega (arith, i_le) in rw (all, few, sum) (mod-eq_of_lt h')
]

-- On a ready scheduler that is running and has no task to delete, every task has the processor after
-- fewer calls of sched_tick than there are tasks, as many as it stands behind the current one.
pub task_gets_turn :
    (cpu j : ℕ) (states : List CpuState) (s : Sched) (ts : List Task) (at : ℕ → ℕ) (mark i : ℕ)
    → Ready s cpu ts at mark i
    → AllAlive ts
    → s.running ≡ true
    → j < length ts
    → length states ≡ (j + length ts - i) % length ts
    → (s' : Sched) × (ticks cpu states s ≡ ok s')
      × (s'.current cpu ≡ at j)
      × (length states < length ts)
task_gets_turn cpu j states s ts at mark i r alive runs inside rounds =
    let (s', e, turn) = ticks-Ready cpu states s ts at mark i r alive runs in
    (
      s',
      e,
      turn
          ∙ ap at (ap (λ k. (i + k) % length ts) rounds ∙ turn_mod (length ts) i j r.inside inside),
      ground (arith, rounds),
    )
