-- ===== src/Arch/Timer.antt =====
-- src/arch/x86_64/cpu/timer/timer.c and its header: the system clock that the timer interrupt
-- advances, the uptime readings, and the comparison of wrapping times. Every field keeps the
-- wrap-around of its width.
pub mod Laws
mod Tests
use goshkik_os.Prelude.{ℕ, ◌+◌, ◌-◌, ◌/◌, ◌%◌, ◌^◌, Bool, ltb, leb, if◌then◌else◌}

-- `struct system_time`
pub record SystemTime : Type 0 where
  pub milliseconds : ℕ
  pub seconds : ℕ
  pub minutes : ℕ
  pub hours : ℕ
  pub days : ℕ

-- `kernel->current_time` and `monotonic_ms`
pub record Clock : Type 0 where
  pub current_time : SystemTime
  pub monotonic_ms : ℕ

pub init_system_clock : Clock
init_system_clock = record {
  current_time = record { milliseconds = 0; seconds = 0; minutes = 0; hours = 0; days = 0 };
  monotonic_ms = 0;
}

-- The carries of `timer_handler`, one early return each.
pub tick_hours : SystemTime → SystemTime
tick_hours t =
    let h = (t.hours + 1) % 2 ^ 8 in
    if ltb h 24
    then record t { hours = h }
    else record t { hours = 0; days = (t.days + 1) % 2 ^ 32 }

pub tick_minutes : SystemTime → SystemTime
unfolding tick_hours
tick_minutes t =
    let m = (t.minutes + 1) % 2 ^ 8 in
    if ltb m 60 then record t { minutes = m } else tick_hours (record t { minutes = 0 })

pub tick_seconds : SystemTime → SystemTime
unfolding tick_minutes
tick_seconds t =
    let s = (t.seconds + 1) % 2 ^ 8 in
    if ltb s 60 then record t { seconds = s } else tick_minutes (record t { seconds = 0 })

pub tick_milliseconds : SystemTime → SystemTime
unfolding tick_seconds
tick_milliseconds t =
    let ms = (t.milliseconds + 1) % 2 ^ 32 in
    if ltb ms 1000
    then record t { milliseconds = ms }
    else tick_seconds (record t { milliseconds = 0 })

pub timer_handler : Clock → Clock
unfolding tick_milliseconds
timer_handler c = record {
  current_time = tick_milliseconds c.current_time;
  monotonic_ms = (c.monotonic_ms + 1) % 2 ^ 64;
}

pub get_system_time : Clock → SystemTime
get_system_time c = c.current_time

pub uptime_ms : Clock → ℕ
uptime_ms c = c.monotonic_ms

pub uptime_seconds : Clock → ℕ
unfolding uptime_ms
uptime_seconds c = (uptime_ms c / 1000) % 2 ^ 32

pub uptime_minutes : Clock → ℕ
unfolding uptime_ms
uptime_minutes c = (uptime_ms c / 60000) % 2 ^ 32

-- `(int64_t)x < 0` of a `uint64_t` difference: its top bit is set
pub time_after : ℕ → ℕ → Bool
time_after a b = leb (2 ^ 63) ((b + 2 ^ 64 - a) % 2 ^ 64)

pub time_before : ℕ → ℕ → Bool
time_before a b = leb (2 ^ 63) ((a + 2 ^ 64 - b) % 2 ^ 64)
