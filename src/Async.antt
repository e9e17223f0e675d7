-- ===== src/Async.antt =====
-- MutexSimple and atomic of kernel/src/util/async.hh. Each of the compiler's `__atomic` operations is one
-- step. `attempt` is one round of the loop in `lock`; how the rounds of several processors interleave is
-- in Async/System.
pub mod System
pub mod Exclusion
use neptun_os.Base.{ℕ, ◌+◌, ◌-◌, ◌%◌, Bool, true, false, ◌==◌, if◌then◌else◌}
use neptun_os.Bits.{u64_mod}

pub record MutexSimple : Type 0 where
  pub lockvar : ℕ

-- `__atomic_compare_exchange_n`: whether it stored, and what the variable holds then
unfoldable pub compare_exchange : (value expected desired : ℕ) → Bool × ℕ
compare_exchange value expected desired =
    if value == expected then (true, desired) else (false, value)

unfoldable pub attempt : MutexSimple → Bool × MutexSimple
unfolding compare_exchange
attempt m =
    let (stored, value) = compare_exchange m.lockvar 0 1 in (stored, record m { lockvar = value })

unfoldable pub unlock : MutexSimple → MutexSimple
unlock m = record m { lockvar = 0 }

-- An `atomic<u64>`. The operations that return a value return it beside the new state.
pub record Atomic : Type 0 where
  pub value : ℕ

unfoldable pub load : Atomic → ℕ
load a = a.value

unfoldable pub store : ℕ → Atomic → Atomic
store v a = record a { value = v }

-- `operator=` from another atomic
unfoldable pub assign : (other : Atomic) → Atomic → Atomic
unfolding load store
assign other a = store (load other) a

-- `operator+` and `operator-` make a new atomic.
unfoldable pub plus : Atomic → ℕ → Atomic
unfolding load
plus a other = record { value = (load a + other) % u64_mod }

unfoldable pub minus : Atomic → ℕ → Atomic
unfolding load
minus a other = record { value = (load a + u64_mod - other) % u64_mod }

-- `__atomic_fetch_add` and `__atomic_fetch_sub`: the old value, and the new state
unfoldable pub fetch_add : ℕ → Atomic → ℕ × Atomic
fetch_add v a = (a.value, record a { value = (a.value + v) % u64_mod })

unfoldable pub fetch_sub : ℕ → Atomic → ℕ × Atomic
fetch_sub v a = (a.value, record a { value = (a.value + u64_mod - v) % u64_mod })

-- `operator+=` and `operator-=`
unfoldable pub add_assign : ℕ → Atomic → Atomic
unfolding fetch_add
add_assign other a = (fetch_add other a).1

unfoldable pub sub_assign : ℕ → Atomic → Atomic
unfolding fetch_sub
sub_assign other a = (fetch_sub other a).1

-- `a++` and `a--` return an atomic of the old value, `++a` and `--a` the new state.
unfoldable pub post_inc : Atomic → Atomic × Atomic
unfolding fetch_add
post_inc a = let (old, a') = fetch_add 1 a in (record { value = old }, a')

unfoldable pub post_dec : Atomic → Atomic × Atomic
unfolding fetch_sub
post_dec a = let (old, a') = fetch_sub 1 a in (record { value = old }, a')

unfoldable pub pre_inc : Atomic → Atomic
unfolding fetch_add
pre_inc a = (fetch_add 1 a).1

unfoldable pub pre_dec : Atomic → Atomic
unfolding fetch_sub
pre_dec a = (fetch_sub 1 a).1
