-- ===== src/Tests/OnScheduler.antt =====
-- The scheduler with two tasks, on processor 0, and two processors at one mutex.
use neptun_os.Base.{
  ℕ, zero, suc, ap, sym, ◌+◌, ◌<◌, ◌≡◌, ◌≢◌, refl, Bool, true, false, none, some, List, [], ◌∷◌,
  ◌++◌, ok, arith, get_elem?, set, length,
}
use neptun_os.Async.{attempt, compare_exchange}
use neptun_os.Async.System.{
  System, Place, Steps, Reachable, move_to, initial, later, call_lock, spin,
}
use neptun_os.Async.Exclusion.{mutual_exclusion, no_deadlock}
use neptun_os.LinkedList.Ring.{Ring}
use neptun_os.LinkedList.Remove.{skip}
use neptun_os.LinkedList.Push.{behind}
use neptun_os.Scheduler.{zeroed, Task, TaskType, Sched, sched_tick, sched_add_user_process}
use neptun_os.Scheduler.Turns.{Ready, saved, ticks, AllAlive, sched_tick-Ready, task_gets_turn}
use neptun_os.Scheduler.Ends.{sched_tick-remove}
use neptun_os.Scheduler.Adds.{user_task, sched_add_user_process-Ready}
use neptun_os.Tests.OnLinkedList.{duo, duo-Ring, places, fresh_places}

abbrev task : ℕ → Bool → Task
task id ending = record {
  state = record zeroed { rip = id + 0x1000 };
  ssestate = id ∷ [];
  id = id;
  parent = 0;
  kind = TaskType.process;
  scheduled_for_deletion = ending;
}

-- The task in the link at `p` has the processor.
abbrev running_at : ℕ → Task → Task → Sched
running_at p t u = record {
  mutex = record { lockvar = 0 };
  tasks = duo t u;
  running = true;
  current = λ cpu. p;
  current_pid = 2;
  sse_state = 5 ∷ [];
}

first-Ready : (t u : Task) → Ready (running_at 10 t u) 0 (t ∷ u ∷ []) places 1 0
first-Ready t u = record { ring = duo-Ring t u; inside = omega arith; turn = refl; unlocked = refl }

second-Ready : (t u : Task) → Ready (running_at 20 t u) 0 (t ∷ u ∷ []) places 1 1
second-Ready t u = record {
  ring = duo-Ring t u;
  inside = omega arith;
  turn = refl;
  unlocked = refl;
}

abbrev both : List Task
both = task 0 false ∷ task 1 false ∷ []

both-AllAlive : AllAlive both
both-AllAlive zero t e =
    ap (λ o. elim o [ none ↦ false | some v ↦ v.scheduled_for_deletion ]) (sym e)
both-AllAlive (suc zero) t e =
    ap (λ o. elim o [ none ↦ false | some v ↦ v.scheduled_for_deletion ]) (sym e)
both-AllAlive (suc (suc j)) t e = cc

sched_tick-Ready_example :
    (s' : Sched) × (n : Task) × (sched_tick 0 zeroed false
        (running_at 10 (task 0 false) (task 1 false))
      ≡ ok (s', some n.state))
    × (get_elem? (set both 0 (saved zeroed (5 ∷ []) (task 0 false))) 1 ≡ some n)
    × (s'.sse_state ≡ n.ssestate)
    × (s'.running ≡ true)
    × Ready s' 0 (set both 0 (saved zeroed (5 ∷ []) (task 0 false))) places 1 1
sched_tick-Ready_example =
    sched_tick-Ready 0 (running_at 10 (task 0 false) (task 1 false)) both places 1 0
      (first-Ready _ _) zeroed false (task 0 false) refl refl refl

task_gets_turn_example :
    (s' : Sched) × (ticks 0 (zeroed ∷ []) (running_at 10 (task 0 false) (task 1 false)) ≡ ok s')
    × (s'.current 0 ≡ 20)
    × (length (zeroed ∷ []) < 2)
task_gets_turn_example =
    task_gets_turn 0 1 (zeroed ∷ []) (running_at 10 (task 0 false) (task 1 false)) both places 1 0
      (first-Ready _ _) both-AllAlive refl (omega arith) refl

sched_tick-remove_example :
    (s' : Sched) × (n : Task) × (sched_tick 0 zeroed false
        (running_at 10 (task 0 true) (task 1 false))
      ≡ ok (s', some n.state))
    × (get_elem? (task 0 true ∷ task 1 false ∷ []) 1 ≡ some n)
    × (s'.current 0 ≡ 20)
    × (s'.tasks.store 10 ≡ none)
    × Ring s'.tasks (task 1 false ∷ []) (λ j. places (skip 0 j)) 0
sched_tick-remove_example =
    sched_tick-remove 0 (running_at 10 (task 0 true) (task 1 false))
      (task 0 true ∷ task 1 false ∷ []) places 1 0 (task 0 true) (first-Ready _ _) zeroed false
      (omega arith) refl refl refl (omega arith)

sched_add_user_process-Ready_example :
    (s' : Sched) × (sched_add_user_process 30 0x5000 0x9000 0x400000
        (running_at 10 (task 0 false) (task 1 false))
      ≡ ok s')
    × (s'.current_pid ≡ 3)
    × (s'.running ≡ true)
    × Ready s' 0
        (both
          ++ user_task 0x5000 0x9000 0x400000 (running_at 10 (task 0 false) (task 1 false)) ∷ [])
        (behind places 2 30)
        2
        0
sched_add_user_process-Ready_example =
    sched_add_user_process-Ready 30 0x5000 0x9000 0x400000 0
      (running_at 10 (task 0 false) (task 1 false)) both places 0 (first-Ready _ _) refl
      (omega arith) (λ j h. fresh_places j) (omega arith)

-- Processor 3 has the mutex and processor 4 waits for it.
abbrev contended : System
contended = record {
  mutex = record { lockvar = 1 };
  place =
      move_to 4 Place.spinning
        (move_to 3 Place.inside (move_to 3 Place.spinning (λ t. Place.outside)));
}

contended-Reachable : Reachable contended
unfolding attempt compare_exchange move_to
contended-Reachable =
    later (later (later initial (call_lock 3 refl)) (spin 3 refl)) (call_lock 4 refl)

mutual_exclusion_example : contended.place 4 ≢ Place.inside
unfolding move_to
mutual_exclusion_example = mutual_exclusion 3 4 contended-Reachable (omega arith) refl

no_deadlock_example : (s' : System) × Steps contended s' × (s'.place 4 ≡ Place.inside)
unfolding move_to
no_deadlock_example = no_deadlock 4 contended-Reachable refl
