-- ===== src/Arch/Timer/Tests.antt =====
-- Runs of the clock of timer.c, and its theorems at concrete inputs.
use goshkik_os.Prelude.{◌%◌, ◌^◌, ◌≡◌, refl}
use goshkik_os.Arch.Timer.{init_system_clock, timer_handler, uptime_ms}
use goshkik_os.Arch.Timer.Laws.{InRange, elapsed, day_wrap, ticks, ticks-elapsed}

second_rolls_over :
    (ticks 1001 init_system_clock).current_time
    ≡ record { milliseconds = 1; seconds = 1; minutes = 0; hours = 0; days = 0 }
unfolding ticks timer_handler init_system_clock
second_rolls_over = refl

ticks-elapsed_example :
    InRange (ticks 1001 init_system_clock).current_time
    × (elapsed (ticks 1001 init_system_clock).current_time ≡ 1001 % day_wrap)
    × (uptime_ms (ticks 1001 init_system_clock) ≡ 1001 % 2 ^ 64)
ticks-elapsed_example = ticks-elapsed 1001
