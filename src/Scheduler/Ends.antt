-- ===== src/Scheduler/Ends.antt =====
-- The last tick of a task that is scheduled for deletion: kernel/src/scheduler/scheduler.cc, sched_tick.
use neptun_os.Base.{
  ℕ, ◌+◌, ◌-◌, ◌<◌, ◌≡◌, ◌≢◌, refl, ap, ◌∙◌, sym, Bool, true, ◌||◌, none, some, List, ok, fatal,
  ◌==◌, ltb, if◌then◌else◌, length, get_elem?, get_elem?-of_lt, arith,
}
use neptun_os.Async.{unlock}
use neptun_os.LinkedList.{LinkedList, load, remove}
use neptun_os.LinkedList.Ring.{Linked, Ring, before, after}
use neptun_os.LinkedList.Writes.{load-Linked_elem}
use neptun_os.LinkedList.Push.{push_back-eq-fatal}
use neptun_os.LinkedList.Remove.{
  remove_at, skip, remove-Linked, remove-Ring, length-remove_at, get_elem?-remove_at,
}
use neptun_os.Scheduler.{
  CpuState, Task, Sched, release, set_current, retire, sched_tick, sched_add_user_process,
}
use neptun_os.Scheduler.Adds.{user_task, sched_add_user_process_steps}
use neptun_os.Scheduler.Turns.{Ready, sched_tick_steps}

module _ (cpu : ℕ) (s : Sched) (ts : List Task) (at : ℕ → ℕ) (mark i : ℕ) (t : Task)
    (r : Ready s cpu ts at mark i) (state : CpuState) (force : Bool) (many : 1 < length ts)
    (e : get_elem? ts i ≡ some t) (ending : t.scheduled_for_deletion ≡ true)
    (runs : (s.running || force) ≡ true) where
  retire_steps :
      (l : LinkedList Task)
      → remove (at i) s.tasks ≡ ok l
      → (prev next : ℕ → ℕ) (last : ℕ → Bool)
      → Linked l.store (remove_at i ts) (λ j. at (skip i j)) prev next last
      → (s' : Sched) × (n : Task) × (sched_tick cpu state force s ≡ ok (s', some n.state))
        × (get_elem? ts (after (length ts) i) ≡ some n)
        × (s'.tasks ≡ l)
        × (s'.current cpu ≡ at (after (length ts) i))
        × (s'.running ≡ s.running)
        × (s'.mutex.lockvar ≡ 0)
  unfolding retire release unlock set_current
  retire_steps l removed prev next last linked =
      let left : length (remove_at i ts) + 1 ≡ length ts = length-remove_at i ts r.inside in
      let j : ℕ = if i + 1 == length ts then 0 else i in
      let place : skip i j ≡ after (length ts) i = ground arith in
      let here : j < length (remove_at i ts) = ground (arith, left, r.inside) in
      let (n, en) = get_elem?-of_lt (remove_at i ts) j here in
      let read =
        ap (λ p. load p s.tasks) r.turn
        ∙ load-Linked_elem s.tasks ts at _ _ _ r.ring.linked i r.inside t e in
      let read' =
        ap (λ p. load p l) (ap at (sym place))
        ∙ load-Linked_elem l (remove_at i ts) (λ j. at (skip i j)) _ _ _ linked j here n en in
      let removed' = ap (λ p. remove p s.tasks) r.turn ∙ removed in
      let self : (cpu == cpu) ≡ true = ground arith in
      let s2 : Sched = record s {
        mutex = record { lockvar = 1 };
        tasks = l;
        current = set_current cpu (at (after (length ts) i)) s.current;
      } in
      (
        release (record s2 { sse_state = n.ssestate }),
        n,
        sched_tick_steps cpu state force s s2
            (record {
              prev = at (before (length ts) i);
              next = at (after (length ts) i);
              value = t;
              last = i == mark;
            })
            (record { prev = prev j; next = next j; value = n; last = last j }) true runs r.unlocked
            read ending (rw removed' refl) (rw self read'),
        ap (get_elem? ts) (sym place) ∙ sym (get_elem?-remove_at i ts j) ∙ en,
        refl,
        rw self refl,
        refl,
        refl,
      )

  -- A tick on a ready scheduler of several tasks that is running or forced, with a current task that is
  -- to be deleted and does not carry the flag of the last link, frees its link, keeps the others in
  -- their order, and loads the task behind it.
  pub sched_tick-remove :
      mark ≢ i
      → (s' : Sched) × (n : Task) × (sched_tick cpu state force s ≡ ok (s', some n.state))
        × (get_elem? ts (after (length ts) i) ≡ some n)
        × (s'.current cpu ≡ at (after (length ts) i))
        × (s'.tasks.store (at i) ≡ none)
        × Ring s'.tasks
            (remove_at i ts)
            (λ j. at (skip i j))
            (if ltb mark i then mark else mark - 1)
  sched_tick-remove other =
      let (l, removed, gone, ring) = remove-Ring s.tasks ts at mark i r.ring r.inside many other in
      let (s', n, stepped, en, tasks, turn, running, unlocked) =
        retire_steps l removed _ _ _ ring.linked in
      (s', n, stepped, en, turn, rw tasks gone, rw tasks ring)

  -- On a ready scheduler of several tasks, the tick that ends the current task, where that is the one
  -- with the flag of the last link, leaves a scheduler on which adding a process is fatal.
  pub sched_add_user_process-sched_tick :
      (fresh cr3 stackptr entry : ℕ)
      → mark ≡ i
      → s.running ≡ true
      → fresh ≢ 0
      → ((j : ℕ) → j < length ts → at j ≢ fresh)
      → (s' : Sched) × (n : Task) × (sched_tick cpu state force s ≡ ok (s', some n.state))
        × (sched_add_user_process fresh cr3 stackptr entry s' ≡ fatal)
  sched_add_user_process-sched_tick fresh cr3 stackptr entry newest running real new =
      let left : length (remove_at i ts) + 1 ≡ length ts = length-remove_at i ts r.inside in
      let (l, removed, gone, first, size, linked) =
        remove-Linked s.tasks ts at mark i r.ring r.inside many in
      let (s', n, stepped, en, tasks, turn, running', unlocked) =
        retire_steps l removed _ _ _ linked in
      let first' : l.first ≡ at (skip i 0) = first in
      let failed =
        push_back-eq-fatal fresh (user_task cr3 stackptr entry s') l real (remove_at i ts)
          (λ j. at (skip i j)) _ (omega (arith, left)) first' linked (ground arith)
          (λ j h. new (skip i j) (ground (arith, left))) in
      (
        s',
        n,
        stepped,
        sched_add_user_process_steps fresh cr3 stackptr entry s' (running' ∙ running) unlocked
            ∙ rw (tasks, failed) refl,
      )
