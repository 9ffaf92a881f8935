-- ===== src/Klibc/Mem/Tests.antt =====
-- Runs of mem.c and its theorems at concrete inputs.
use goshkik_os.Prelude.{◌%◌, ◌≡◌, refl, inr, arith}
use goshkik_os.Prelude.Memory.{Memory}
use goshkik_os.Prelude.Int.{negsuc}
use goshkik_os.Klibc.Mem.{mempcpy, memmove, memcmp}
use goshkik_os.Klibc.Mem.Laws.{copied, mempcpy_lem, memmove_lem}

-- byte a of the memory is a mod 256
abbrev ramp : Memory
ramp a = a % 256

-- an overlapping move by two bytes
moved : (memmove 12 10 4 ramp).1 15 ≡ 13
unfolding memmove
moved = refl

compared : memcmp 10 11 3 ramp ≡ negsuc 0
unfolding memcmp
compared = refl

mempcpy_lem_example : mempcpy 100 10 4 ramp ≡ (104, copied 4 100 10 ramp)
mempcpy_lem_example = mempcpy_lem 100 10 4 ramp (inr (omega arith))

memmove_lem_example : memmove 12 10 4 ramp ≡ (12, copied 4 12 10 ramp)
memmove_lem_example = memmove_lem 12 10 4 ramp
