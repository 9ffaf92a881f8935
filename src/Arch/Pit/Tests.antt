-- ===== src/Arch/Pit/Tests.antt =====
-- Runs of pit.c and its theorems at concrete inputs.
use goshkik_os.Prelude.{◌≡◌, refl, some, [], ◌∷◌, arith}
use goshkik_os.Arch.Pit.{pit_set_reload, init_pit}
use goshkik_os.Arch.Pit.Laws.{reload_of, reload_of-pit_set_reload}

-- 1193182 Hz / 1193 is the kernel's 1 kHz tick.
init_pit_run :
    init_pit
    ≡ some
        ((0x43, 0x34) ∷ (0x40, 0xff) ∷ (0x40, 0xff) ∷ (0x43, 0x34) ∷ (0x40, 0xa9) ∷ (0x40, 4) ∷ [])
unfolding init_pit
init_pit_run = refl

reload_of-pit_set_reload_example : reload_of (pit_set_reload 1193) ≡ some 1193
reload_of-pit_set_reload_example = reload_of-pit_set_reload 1193 (omega arith)
