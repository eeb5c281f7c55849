-- ===== src/Thread.antt =====
-- src/nhr_thread.c: threads, and the joiner, which joins and frees each thread that has ended when
-- the next one ends. What one thread does is cut into moves at the points where another can come
-- between. The children prove.
pub mod Inv
pub mod Safety
pub mod Progress
use libnhr.Base.{ℕ, suc, ◌+◌, Option, none, some, Bool, true, false, if◌then◌else◌, ◌==◌}

-- Where a thread is: not created; in its function; behind it, in `nhr_threads_joiner_add`, before
-- the lock; with the lock, before `nhr_threads_joiner_clean`; in `pthread_join` of an earlier thread;
-- behind it, before `nhr_free`; behind the cleaning; behind the store; behind the unlock; ended.
pub data Pc : Type 0 where
  absent running finished locked : Pc
  joining joined : ℕ → Pc
  cleaned stored unlocked exited : Pc

-- `_threads_joiner`: its mutex, as the thread that has it, and its `thread`; where each thread is,
-- and how often its structure has been freed. A thread is named by a number.
pub record Threads : Type 0 where
  pub lock : Option ℕ
  pub thread : Option ℕ
  pub pc : ℕ → Pc
  pub frees : ℕ → ℕ

abbrev pub update {ℓ} : {A : Type ℓ} → (ℕ → A) → ℕ → A → ℕ → A
update f i a j = if i == j then a else f j

-- no thread yet
abbrev pub no_threads : Threads
no_threads = record { lock = none; thread = none; pc = λ i. absent; frees = λ i. 0 }

abbrev pub goes : ℕ → Pc → Threads → Threads
goes i p s = record s { pc = update s.pc i p }

abbrev pub is_exited : Pc → Bool
is_exited exited = true
is_exited _ = false

-- `nhr_threads_joiner_clean` up to its `pthread_join`
unfoldable pub clean : ℕ → Option ℕ → Threads → Threads
clean i none s = goes i cleaned s
clean i (some t) s = goes i (joining t) (record s { thread = none })

-- `nhr_mutex_lock`, which waits while another thread has the mutex; no thread here locks it twice
unfoldable pub acquire : ℕ → Option ℕ → Threads → Option Threads
acquire i none s = some (goes i locked (record s { lock = some i }))
acquire i (some j) s = none

-- `pthread_join`, which waits for the end of the thread
unfoldable pub join : ℕ → ℕ → Threads → Option Threads
join i t s = if is_exited (s.pc t) then some (goes i (joined t) s) else none

-- `nhr_thread_create`, which makes the structure and starts the function
abbrev pub create : ℕ → Threads → Threads
create i s = goes i running s

-- `nhr_free` of the structure of a thread that has been joined
abbrev pub free_joined : ℕ → ℕ → Threads → Threads
free_joined i t s = goes i cleaned (record s { frees = update s.frees t (suc (s.frees t)) })

-- the store of `nhr_threads_joiner_add`
abbrev pub store : ℕ → Threads → Threads
store i s = goes i stored (record s { thread = some i })

-- `nhr_mutex_unlock`
abbrev pub release : ℕ → Threads → Threads
release i s = goes i unlocked (record s { lock = none })

-- The next move of thread `i`, which is at `p`; `none` if it has to wait, or has ended.
unfoldable pub move : ℕ → Pc → Threads → Option Threads
unfolding clean acquire join
move i absent s = some (create i s)
move i running s = some (goes i finished s)
move i finished s = acquire i s.lock s
move i locked s = some (clean i s.thread s)
move i (joining t) s = join i t s
move i (joined t) s =
    some (goes i cleaned (record s { frees = update s.frees t (suc (s.frees t)) }))
move i cleaned s = some (store i s)
move i stored s = some (release i s)
move i unlocked s = some (goes i exited s)
move i exited s = none

unfoldable pub step : ℕ → Threads → Option Threads
unfolding move
step i s = move i (s.pc i) s
