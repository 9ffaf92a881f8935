-- ===== src/Arch/Serial/Tests.antt =====
-- Two bytes on a serial line that is busy at first.
use goshkik_os.Prelude.Run.{done}
use goshkik_os.Arch.Serial.{write_serial, init_ps2}
use goshkik_os.Arch.Serial.Laws.{
  IsServed, finished, busy, ready, sent, write_serial-IsServed, init_ps2_lem,
}
use goshkik_os.Prelude.{◌≡◌, refl, [], ◌∷◌}

hi-IsServed : IsServed (72 ∷ 105 ∷ []) (0 ∷ 0x60 ∷ 0x20 ∷ []) []
hi-IsServed =
    busy 72 (105 ∷ []) 0 (0x60 ∷ 0x20 ∷ []) [] refl
      (ready 72 (105 ∷ []) 0x60 (0x20 ∷ []) [] refl (ready 105 [] 0x20 [] [] refl (finished [])))

write_serial-IsServed_example :
    write_serial (72 ∷ 105 ∷ []) (record { inputs = 0 ∷ 0x60 ∷ 0x20 ∷ []; outputs = [] })
    ≡ done tt (record { inputs = []; outputs = sent (72 ∷ 105 ∷ []) [] })
write_serial-IsServed_example = write_serial-IsServed [] hi-IsServed

-- bit 5 of the configuration is set
config_run :
    init_ps2 (record { inputs = 0 ∷ 0 ∷ 0 ∷ 1 ∷ 0x20 ∷ 0 ∷ 0 ∷ 0 ∷ []; outputs = [] })
    ≡ done 0 (record {
      inputs = [];
      outputs =
          (0x64, 0xAE)
          ∷ (0x60, 0x63)
          ∷ (0x64, 0x60)
          ∷ (0x64, 0x20)
          ∷ (0x64, 0xA7)
          ∷ (0x64, 0xAD)
          ∷ [];
    })
config_run = init_ps2_lem 0x20 0 1 [] [] refl refl
