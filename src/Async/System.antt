-- ===== src/Async/System.antt =====
-- Processors that take and leave one mutex (kernel/src/util/async.hh), their steps interleaved in any
-- order. Each of them calls `unlock` only after its own `lock` has returned, as LockguardSimple does.
use neptun_os.Base.{ℕ, ◌≡◌, ◌==◌, if◌then◌else◌}
use neptun_os.Async.{MutexSimple, attempt, unlock}

-- Where a processor is: outside, in the loop of `lock`, or behind it.
pub data Place : Type 0 where
  outside : Place
  spinning : Place
  inside : Place

pub record System : Type 0 where
  pub mutex : MutexSimple
  pub place : ℕ → Place

unfoldable pub move_to : ℕ → Place → (ℕ → Place) → ℕ → Place
move_to t p place u = if u == t then p else place u

pub data Step (s : System) : System → Type 0 where
  call_lock :
      (t : ℕ)
      → s.place t ≡ Place.outside
      → Step s (record s { place = move_to t Place.spinning s.place })
  spin :
      (t : ℕ)
      → s.place t ≡ Place.spinning
      → Step s (record {
        mutex = (attempt s.mutex).1;
        place = move_to t (if (attempt s.mutex).0 then Place.inside else Place.spinning) s.place;
      })
  call_unlock :
      (t : ℕ)
      → s.place t ≡ Place.inside
      → Step s (record { mutex = unlock s.mutex; place = move_to t Place.outside s.place })

abbrev pub start : System
start = record { mutex = record { lockvar = 0 }; place = λ t. Place.outside }

pub data Reachable : System → Type 0 where
  initial : Reachable start
  later : {s s' : System} → Reachable s → Step s s' → Reachable s'

-- Some steps, from one state to another.
pub data Steps (s : System) : System → Type 0 where
  done : Steps s s
  more : {s' s'' : System} → Steps s s' → Step s' s'' → Steps s s''
