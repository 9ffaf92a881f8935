-- ===== src/Sched.antt =====
-- src/scheduling: threads, processes, mutexes, the ready queue and the scheduler.
pub mod State
pub mod Samples
pub mod Queue
pub mod Mutex
pub mod Lookup
pub mod Thread
pub mod Ending
pub mod Process
pub mod Tick
