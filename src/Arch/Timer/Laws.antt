-- ===== src/Arch/Timer/Laws.antt =====
-- What the clock of timer.c shows after any number of ticks, and how wrapping times compare.
use goshkik_os.Prelude.{ℕ, zero, suc, ◌+◌, ◌*◌, ◌/◌, ◌%◌, ◌^◌, ◌≤◌, ◌<◌, ◌≡◌, true, arith, ◌↔◌}
use goshkik_os.Arch.Timer.{
  SystemTime, Clock, init_system_clock, tick_milliseconds, timer_handler, uptime_ms, uptime_seconds,
  uptime_minutes, get_system_time, time_after, time_before,
}

-- the ranges that timer.h gives for the fields
pub record InRange (t : SystemTime) : Type 0 where
  pub milliseconds : t.milliseconds < 1000
  pub seconds : t.seconds < 60
  pub minutes : t.minutes < 60
  pub hours : t.hours < 24
  pub days : t.days < 2 ^ 32

-- the milliseconds that the fields stand for
abbrev pub elapsed : SystemTime → ℕ
elapsed t = t.milliseconds + 1000 * (t.seconds + 60 * (t.minutes + 60 * (t.hours + 24 * t.days)))

-- the number of milliseconds after which `days` wraps
abbrev pub day_wrap : ℕ
day_wrap = 86_400_000 * 2 ^ 32

pub tick-InRange : {t : SystemTime} → InRange t → InRange (tick_milliseconds t)
unfolding tick_milliseconds
tick-InRange r = ground arith

pub elapsed-tick :
    {t : SystemTime} → InRange t → elapsed (tick_milliseconds t) ≡ (elapsed t + 1) % day_wrap
unfolding tick_milliseconds
elapsed-tick r = ground arith

-- `n` timer interrupts
unfoldable pub ticks : ℕ → Clock → Clock
ticks zero c = c
ticks (suc n) c = timer_handler (ticks n c)

record Shows (n : ℕ) (c : Clock) : Type 0 where
  range : InRange c.current_time
  total : elapsed c.current_time ≡ n % day_wrap
  mono : c.monotonic_ms ≡ n % 2 ^ 64

tick-Shows : (n : ℕ) (c : Clock) → Shows n c → Shows (suc n) (timer_handler c)
unfolding timer_handler
tick-Shows n c s = record {
  range = tick-InRange s.range;
  total = omega (arith, elapsed-tick s.range);
  mono = omega arith;
}

ticks-Shows : (n : ℕ) → Shows n (ticks n init_system_clock)
unfolding ticks init_system_clock
ticks-Shows zero = record { range = omega arith; total = omega arith; mono = omega arith }
ticks-Shows (suc n) = tick-Shows n _ (ticks-Shows n)

-- After n timer interrupts from init_system_clock every field of the clock is in its range, the
-- fields read n milliseconds in mixed radix (days wrapping at 2^32), and monotonic_ms is n mod 2^64.
pub ticks-elapsed :
    (n : ℕ)
    → InRange (ticks n init_system_clock).current_time
      × (elapsed (ticks n init_system_clock).current_time ≡ n % day_wrap)
      × (uptime_ms (ticks n init_system_clock) ≡ n % 2 ^ 64)
unfolding uptime_ms
ticks-elapsed n = let s = ticks-Shows n in (s.range, s.total, s.mono)

-- Below 2^32 seconds of uptime the wall-clock fields and the monotonic counter agree: the whole
-- seconds, and the whole minutes, of the fields are those that the uptime functions return.
pub uptime-get_system_time :
    (n : ℕ)
    → n < 1000 * 2 ^ 32
    → (uptime_seconds (ticks n init_system_clock)
        ≡ elapsed (get_system_time (ticks n init_system_clock)) / 1000)
      × (uptime_minutes (ticks n init_system_clock)
          ≡ elapsed (get_system_time (ticks n init_system_clock)) / 60000)
unfolding uptime_seconds uptime_minutes get_system_time
uptime-get_system_time n h = let s = ticks-Shows n in (omega arith, omega arith)

-- For 64-bit times a and b, time_after(a, b) holds exactly if a is b advanced, modulo 2^64, by a
-- distance d with 0 < d <= 2^63; and time_before is time_after with its arguments exchanged.
pub time_after_iff :
    (b d : ℕ)
    → b < 2 ^ 64
    → d < 2 ^ 64
    → ((time_after ((b + d) % 2 ^ 64) b ≡ true) ↔ ((0 < d) × (d ≤ 2 ^ 63)))
      × (time_before b ((b + d) % 2 ^ 64) ≡ time_after ((b + d) % 2 ^ 64) b)
unfolding time_after time_before
time_after_iff b d hb hd = ground arith
