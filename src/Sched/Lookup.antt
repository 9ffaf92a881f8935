-- ===== src/Sched/Lookup.antt =====
-- The process table of process.c: lookup, the threads of a process, and waking those that wait for it.
use goshkik_os.Prelude.Memory.{Ptr}
use goshkik_os.Prelude.Int.{ℤ, pos, negsuc}
use goshkik_os.Sched.State.{
  ThreadState, ready, blocked, out_of_fuel, M, pure, ◌>>=◌, ◌>>◌, get, load, store, set_next,
  set_state, load_proc, store_proc, lock_schedule_spin, unlock_schedule_spin, thread_mutex,
  process_table_lock, lock_of, einval, esrch,
}
use goshkik_os.Sched.Queue.{link_tail}
use goshkik_os.Sched.Mutex.{acquire_mutex, release_mutex, thread_from_tid}
use goshkik_os.Prelude.{
  ℕ, zero, suc, ◌%◌, ◌^◌, Bool, true, false, ◌||◌, List, [], ◌∷◌, ◌==◌, if◌then◌else◌,
}

-- the process with this identifier in a part of the table, NULL if there is none
unfoldable pub find_pid : ℕ → List Ptr → M Ptr
find_pid pid [] = pure 0
find_pid pid (p ∷ ps) =
    if p == 0
    then find_pid pid ps
    else (do t ← load_proc p; if t.pid == pid then pure p else find_pid pid ps)

unfoldable pub process_from_pid : ℕ → ℤ → M Ptr
process_from_pid fuel (negsuc n) = pure 0
process_from_pid fuel (pos pid) = do
  acquire_mutex fuel process_table_lock
  k ← get
  p ← find_pid pid k.process_table
  release_mutex fuel process_table_lock
  pure p

unfoldable pub process_add_thread : ℕ → Ptr → Ptr → M ℤ
process_add_thread fuel p t = if p == 0 || t == 0 then pure einval else (do
  acquire_mutex fuel (lock_of p)
  process ← load_proc p
  thread ← load t
  store t (record thread { o_pid = process.pid % 2 ^ 32; proc = p })
  store_proc p
      (record process { main_thread = if process.main_thread == 0 then t else process.main_thread })
  release_mutex fuel (lock_of p)
  pure (pos 0))

unfoldable pub process_remove_thread : ℕ → Ptr → Ptr → M ℤ
process_remove_thread fuel p t = if p == 0 || t == 0 then pure einval else (do
  acquire_mutex fuel (lock_of p)
  process ← load_proc p
  store_proc p
      (record process { main_thread = if process.main_thread == t then 0 else process.main_thread })
  release_mutex fuel (lock_of p)
  pure (pos 0))

abbrev pub is_blocked : ThreadState → Bool
is_blocked blocked = true
is_blocked _ = false

unfoldable pub thread_unblock : ℕ → ℕ → M ℤ
thread_unblock fuel tid = do
  acquire_mutex fuel thread_mutex
  p ← thread_from_tid tid
  release_mutex fuel thread_mutex
  if p == 0 then pure esrch else (do
    t ← load p
    if is_blocked t.state
        then (do
          set_state p ready
          set_next p 0
          lock_schedule_spin
          link_tail p
          unlock_schedule_spin
          pure (pos 0))
        else pure einval)

-- the loop of wake_waiters: `next` is read after thread_unblock
unfoldable pub wake_from : ℕ → ℕ → Ptr → M (Unit {0})
wake_from fuel zero cur = λ _. out_of_fuel
wake_from fuel (suc f) cur =
    if cur == 0
    then pure tt
    else (do t ← load cur; thread_unblock fuel t.tid; t ← load cur; wake_from fuel f t.next)

unfoldable pub wake_waiters : ℕ → Ptr → M (Unit {0})
wake_waiters fuel p = if p == 0 then pure tt else (do
  acquire_mutex fuel (lock_of p)
  process ← load_proc p
  wake_from fuel fuel process.wait_head
  process ← load_proc p
  store_proc p (record process { wait_head = 0; wait_tail = 0 })
  release_mutex fuel (lock_of p))
