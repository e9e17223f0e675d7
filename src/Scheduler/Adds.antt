-- ===== src/Scheduler/Adds.antt =====
-- Starting the scheduler and adding tasks to it: kernel/src/scheduler/scheduler.cc.
use neptun_os.Base.{
  ℕ, ◌+◌, ◌-◌, ◌%◌, ◌^◌, ◌<◌, ◌≡◌, ◌≢◌, refl, ◌∙◌, true, false, List, [], ◌∷◌, ◌++◌, ok, ◌>>=◌,
  ◌==◌, if◌then◌else◌, length, length-append, arith,
}
use neptun_os.Bits.{u64_mod}
use neptun_os.Async.{compare_exchange, attempt, unlock}
use neptun_os.LinkedList.{push_back}
use neptun_os.LinkedList.Ring.{Ring}
use neptun_os.LinkedList.Push.{behind, push_back-Ring, push_front-Ring}
use neptun_os.Scheduler.{
  zeroed, Task, TaskType, Sched, user_registers, set_current, sched_start, sched_add_user_process,
}
use neptun_os.Scheduler.Turns.{Ready}

abbrev pub user_task : (cr3 stackptr entry : ℕ) → Sched → Task
user_task cr3 stackptr entry s = record {
  state = user_registers cr3 stackptr entry;
  ssestate = s.sse_state;
  id = s.current_pid;
  parent = 0;
  kind = TaskType.process;
  scheduled_for_deletion = false;
}

pub sched_add_user_process_steps :
    (fresh cr3 stackptr entry : ℕ) (s : Sched)
    → s.running ≡ true
    → s.mutex.lockvar ≡ 0
    → sched_add_user_process fresh cr3 stackptr entry s ≡ (
        push_back fresh (user_task cr3 stackptr entry s) s.tasks >>= λ l. ok (record s {
          mutex = record { lockvar = 0 };
          tasks = l;
          running = true;
          current_pid = (s.current_pid + 1) % 2 ^ 32;
        }))
unfolding sched_add_user_process attempt compare_exchange unlock
sched_add_user_process_steps fresh cr3 stackptr entry s on unlocked =
    let free : (s.mutex.lockvar == 0) ≡ true = ground arith in rw (on, free) refl

-- On a ready scheduler that is running, whose newest task carries the flag of the last link, a new
-- process gets the next number and stands behind the others; the current task stays current and the
-- scheduler ready.
pub sched_add_user_process-Ready :
    (fresh cr3 stackptr entry cpu : ℕ) (s : Sched) (ts : List Task) (at : ℕ → ℕ) (i : ℕ)
    → Ready s cpu ts at (length ts - 1) i
    → s.running ≡ true
    → fresh ≢ 0
    → ((j : ℕ) → j < length ts → at j ≢ fresh)
    → length ts + 1 < u64_mod
    → (s' : Sched) × (sched_add_user_process fresh cr3 stackptr entry s ≡ ok s')
      × (s'.current_pid ≡ (s.current_pid + 1) % 2 ^ 32)
      × (s'.running ≡ true)
      × Ready s' cpu
          (ts ++ user_task cr3 stackptr entry s ∷ [])
          (behind at (length ts) fresh)
          (length ts)
          i
sched_add_user_process-Ready fresh cr3 stackptr entry cpu s ts at i r on real new room =
    let t = user_task cr3 stackptr entry s in
    let (l, pushed, ring) =
      push_back-Ring fresh t s.tasks real (omega (arith, r.ring.sized)) ts at r.ring new in
    let size : length (ts ++ t ∷ []) ≡ length ts + 1 = length-append ts (t ∷ []) in
    let old : (i == length ts) ≡ false = ground (arith, r.inside) in
    (
      record s {
        mutex = record { lockvar = 0 };
        tasks = l;
        running = true;
        current_pid = (s.current_pid + 1) % 2 ^ 32;
      },
      sched_add_user_process_steps fresh cr3 stackptr entry s on r.unlocked ∙ rw pushed refl,
      refl,
      refl,
      record {
        ring = ring;
        inside = omega (arith, size, r.inside);
        turn = r.turn ∙ rw old refl;
        unlocked = refl;
      },
    )

-- Started on an empty list, the scheduler runs the one task there is, with no call under way.
pub sched_start-Ready :
    (cpu fresh : ℕ) (buffer : List ℕ) (s : Sched) (at : ℕ → ℕ)
    → Ring s.tasks [] at 0
    → s.mutex.lockvar ≡ 0
    → fresh ≢ 0
    → (s' : Sched) × (t : Task) × (sched_start cpu fresh buffer s ≡ ok s')
      × (t.id ≡ s.current_pid)
      × (s'.running ≡ true)
      × Ready s' cpu (t ∷ []) (λ i. if i == 0 then fresh else at (i - 1)) 0 0
unfolding sched_start attempt compare_exchange unlock
sched_start-Ready cpu fresh buffer s at ring unlocked real =
    let t : Task = record {
      state = record zeroed { cs = 0x08; ss = 0x10 };
      ssestate = buffer;
      id = s.current_pid;
      parent = 0;
      kind = TaskType.process;
      scheduled_for_deletion = false;
    } in
    let (l, pushed, ring') =
      push_front-Ring fresh t s.tasks real (omega (arith, ring.sized)) [] at 0 ring
        (λ j h. absurd (omega (arith, h))) in
    let free : (s.mutex.lockvar == 0) ≡ true = ground arith in
    let empty : (s.tasks.size == 0) ≡ true = ground (arith, ring.sized) in
    let self : (cpu == cpu) ≡ true = ground arith in
    (
      record s {
        mutex = record { lockvar = 0 };
        tasks = l;
        running = true;
        current = set_current cpu l.first s.current;
        current_pid = (s.current_pid + 1) % 2 ^ 32;
      },
      t,
      rw (empty, free, pushed) refl,
      refl,
      refl,
      record { ring = ring'; inside = omega arith; turn = rw self ring'.head; unlocked = refl },
    )
