-- ===== src/Sched/Tick/Tests.antt =====
-- The timer interrupts a thread that waits.
use goshkik_os.Sched.State.{blocked, Kernel, deadlock}
use goshkik_os.Sched.Samples.{two_ready, thread, no_context}
use goshkik_os.Sched.Tick.{scheduler_tick}
use goshkik_os.Sched.Tick.Laws.{scheduler_tick_deadlock}
use goshkik_os.Prelude.{◌≡◌, refl, some, arith}

-- two_ready with the waiting thread current
abbrev interrupted : Kernel
interrupted = record two_ready { current_thread = 500 }

scheduler_tick_deadlock_example : scheduler_tick 9 (some no_context) interrupted ≡ deadlock
scheduler_tick_deadlock_example =
    scheduler_tick_deadlock 9 interrupted no_context (thread 5 blocked 0) (ground arith) refl refl
      refl
