-- ===== src/Sched/Tick/Laws.antt =====
-- What scheduler_tick does when the interrupted thread has blocked or ended.
use goshkik_os.Prelude.Memory.{Ptr, update}
use goshkik_os.Sched.State.{Thread, Kernel, Context, deadlock, store, lock_schedule_spin}
use goshkik_os.Sched.Queue.Laws.{load-ok}
use goshkik_os.Sched.Queue.Remove.{remove_from_ready_queue_deadlock}
use goshkik_os.Sched.Tick.{is_stopped, put_back, scheduler_tick}
use goshkik_os.Prelude.{ℕ, ◌≡◌, refl, ◌≢◌, true, false, some, ==_refl, ne→==}

put_back_deadlock :
    (f : ℕ) (k : Kernel) (old : Ptr) (t : Thread)
    → old ≢ 0
    → k.threads old ≡ some t
    → is_stopped t.state ≡ true
    → k.schedule_lock ≡ false
    → put_back f old k ≡ deadlock
unfolding put_back lock_schedule_spin
put_back_deadlock f k old t n e stopped free = rw (
  ne→== old 0 n,
  load-ok k old t n e,
  stopped,
  free,
  remove_from_ready_queue_deadlock f (record k { schedule_lock = true }) old refl n,
)

-- When the timer interrupts a thread that has blocked or terminated, scheduler_tick never returns: it
-- takes the scheduler's lock a second time.
pub scheduler_tick_deadlock :
    (f : ℕ) (k : Kernel) (context : Context) (t : Thread)
    → k.current_thread ≢ 0
    → k.threads k.current_thread ≡ some t
    → is_stopped t.state ≡ true
    → k.schedule_lock ≡ false
    → scheduler_tick f (some context) k ≡ deadlock
unfolding scheduler_tick store
scheduler_tick_deadlock f k context t n e stopped free =
    let t' = record t { context = context } in
    rw (
      ne→== k.current_thread 0 n,
      load-ok k k.current_thread t n e,
      put_back_deadlock f (record k { threads = update k.threads k.current_thread (some t') })
          k.current_thread t' n (rw (==_refl k.current_thread)) stopped free,
    )
