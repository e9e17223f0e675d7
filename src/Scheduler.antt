-- ===== src/Scheduler.antt =====
-- The round-robin scheduler of kernel/src/scheduler/scheduler.{cc,hh}, on the processor whose number is the
-- argument `cpu`. `sched_m` is held from the beginning to the end of each call, so a call is one step; one
-- that finds it taken does not return. Each task owns the 512 bytes behind its `ssestate`, so they stand in
-- the task. Where the code allocates, the arguments say what it gets: `fresh` is the address of the new
-- link, `buffer` the bytes that lie behind a new `ssestate`.
pub mod Turns
pub mod Ends
pub mod Adds
use neptun_os.Base.{
  bit_or, ℕ, ◌+◌, ◌-◌, ◌%◌, ◌^◌, Bool, true, false, not, ◌&&◌, Option, none, some, List, Outcome,
  ok, fatal, ◌>>=◌, ◌==◌, if◌then◌else◌,
}
use neptun_os.Bits.{u64_mod}
use neptun_os.Async.{MutexSimple, attempt, unlock}
use neptun_os.LinkedList.{Link, LinkedList, load, set_value, push_front, push_back, remove}

pub record CpuState : Type 0 where
  pub cr3 : ℕ
  pub r15 : ℕ
  pub r14 : ℕ
  pub r13 : ℕ
  pub r12 : ℕ
  pub r11 : ℕ
  pub r10 : ℕ
  pub r9 : ℕ
  pub r8 : ℕ
  pub cr2 : ℕ
  pub rbp : ℕ
  pub rsi : ℕ
  pub rdi : ℕ
  pub rdx : ℕ
  pub rcx : ℕ
  pub rbx : ℕ
  pub rax : ℕ
  pub exc : ℕ
  pub rflexc : ℕ
  pub err : ℕ
  pub rip : ℕ
  pub cs : ℕ
  pub rfl : ℕ
  pub rsp : ℕ
  pub ss : ℕ

-- the default values of the members
abbrev pub zeroed : CpuState
zeroed = record {
  cr3 = 0;
  r15 = 0;
  r14 = 0;
  r13 = 0;
  r12 = 0;
  r11 = 0;
  r10 = 0;
  r9 = 0;
  r8 = 0;
  cr2 = 0;
  rbp = 0;
  rsi = 0;
  rdi = 0;
  rdx = 0;
  rcx = 0;
  rbx = 0;
  rax = 0;
  exc = 0;
  rflexc = 0;
  err = 0;
  rip = 0;
  cs = 0;
  rfl = 0;
  rsp = 0;
  ss = 0;
}

pub data TaskType : Type 0 where
  process : TaskType
  thread : TaskType

pub record Task : Type 0 where
  pub state : CpuState
  pub ssestate : List ℕ
  pub id : ℕ
  pub parent : ℕ
  pub kind : TaskType
  pub scheduled_for_deletion : Bool

-- The variables of the scheduler; `current` is `sched_cpus`, 0 for a null pointer.
pub record Sched : Type 0 where
  pub mutex : MutexSimple
  pub tasks : LinkedList Task
  pub running : Bool
  pub current : ℕ → ℕ
  pub current_pid : ℕ
  pub sse_state : List ℕ

-- `sched_m.lock()`
unfoldable pub lock : Sched → Outcome Sched
lock s = let (got, m) = attempt s.mutex in if got then ok (record s { mutex = m }) else fatal

unfoldable pub release : Sched → Sched
release s = record s { mutex = unlock s.mutex }

unfoldable pub sched_setrunning : Bool → Sched → Sched
sched_setrunning to s = record s { running = to }

-- `sched_cpus[cpu] = p`
unfoldable pub set_current : (cpu p : ℕ) → (ℕ → ℕ) → ℕ → ℕ
set_current cpu p cpus c = if c == cpu then p else cpus c

-- A new task, and the next process number.
unfoldable pub new_task : CpuState → List ℕ → TaskType → Sched → Task × Sched
new_task state buffer kind s = (
  record {
    state = state;
    ssestate = buffer;
    id = s.current_pid;
    parent = 0;
    kind = kind;
    scheduled_for_deletion = false;
  },
  record s { current_pid = (s.current_pid + 1) % 2 ^ 32 },
)

-- The guard sets `running` to false at its beginning and to true at its end. The interrupt that follows is
-- not part of the call.
unfoldable pub sched_start : (cpu fresh : ℕ) → (buffer : List ℕ) → Sched → Outcome Sched
unfolding lock release sched_setrunning set_current new_task
sched_start cpu fresh buffer s = if not (s.tasks.size == 0) then fatal else do
  s1 ← lock s
  let (t, s2) =
      new_task (record zeroed { cs = 0x08; ss = 0x10 }) buffer TaskType.process
        (sched_setrunning false s1)
  l ← push_front fresh t s2.tasks
  let s3 = record s2 { tasks = l; current = set_current cpu l.first s2.current }
  ok (sched_setrunning true (release s3))

-- The state in which the calling task waits, in `pause`, for its end.
unfoldable pub sched_exit_thread : (cpu : ℕ) → Sched → Outcome Sched
unfolding lock release sched_setrunning
sched_exit_thread cpu s = do
  s1 ← lock s
  let s2 = sched_setrunning false s1
  k ← load (s2.current cpu) s2.tasks
  l ← set_value (s2.current cpu) (record k.value { scheduled_for_deletion = true }) s2.tasks
  ok (sched_setrunning true (release (record s2 { tasks = l })))

-- The two branches of `sched_tick` for the task in the link `k`.
unfoldable pub retire : (cpu : ℕ) → Link Task → Sched → Outcome Sched
unfolding set_current
retire cpu k s = remove (s.current cpu) s.tasks >>= λ l.
    ok (record s { tasks = l; current = set_current cpu k.next s.current })

unfoldable pub switch : (cpu : ℕ) → CpuState → Link Task → Sched → Outcome Sched
unfolding set_current
switch cpu state k s =
    set_value (s.current cpu) (record k.value { state = state; ssestate = s.sse_state }) s.tasks
    >>= λ l. ok (record s { tasks = l; current = set_current cpu k.next s.current })

-- The registers that `arch_cpu_state_load` gets, if the call comes to that. The end of the interrupt is
-- told to the hardware only.
unfoldable pub sched_tick :
    (cpu : ℕ) → CpuState → (force : Bool) → Sched → Outcome (Sched × Option CpuState)
unfolding lock release retire switch
sched_tick cpu state force s = if not s.running && not force then ok (s, none) else do
  s1 ← lock s
  k ← load (s1.current cpu) s1.tasks
  s2 ← if k.value.scheduled_for_deletion then retire cpu k s1 else switch cpu state k s1
  n ← load (s2.current cpu) s2.tasks
  ok (release (record s2 { sse_state = n.value.ssestate }), some n.value.state)

abbrev pub user_registers : (cr3 stackptr entry : ℕ) → CpuState
user_registers cr3 stackptr entry = record zeroed {
  cs = bit_or 0x20 3;
  ss = bit_or 0x18 3;
  rip = entry;
  rsp = stackptr;
  rbp = stackptr;
  rfl = 0x202;
  rdi = 0;
  cr3 = cr3;
}

unfoldable pub sched_add_user_process :
    (fresh : ℕ) → (cr3 stackptr entry : ℕ) → Sched → Outcome Sched
unfolding lock release sched_setrunning new_task
sched_add_user_process fresh cr3 stackptr entry s = if not s.running then fatal else do
  s1 ← lock s
  let (t, s2) =
      new_task (user_registers cr3 stackptr entry) s1.sse_state TaskType.process
        (sched_setrunning false s1)
  l ← push_back fresh t s2.tasks
  ok (sched_setrunning true (release (record s2 { tasks = l })))

-- `stack` is the block for the stack, `cr3` what `paging_lookup` gives for the kernel's tables. Beside the
-- state stands what is written on the new stack: the address, and the word.
unfoldable pub sched_add_thread :
    (fresh stack cr3 fun object exit_thread : ℕ) → Sched → Outcome (Sched × ℕ × ℕ)
unfolding lock release sched_setrunning new_task
sched_add_thread fresh stack cr3 fun object exit_thread s = do
  s1 ← lock s
  let top = (stack + 0x8000) % u64_mod
  let pushed = (top + u64_mod - 8) % u64_mod
  let registers = record zeroed {
    cs = 0x08;
    ss = 0x10;
    rip = fun;
    rsp = pushed;
    rbp = top;
    rfl = 0x202;
    rdi = object;
    cr3 = cr3;
  }
  let (t, s2) = new_task registers s1.sse_state TaskType.thread (sched_setrunning false s1)
  l ← push_back fresh t s2.tasks
  ok (sched_setrunning true (release (record s2 { tasks = l })), pushed, exit_thread)
