-- ===== src/Arch/Mmu/Tests.antt =====
-- The theorem about mmu.c at a concrete memory map.
use goshkik_os.Prelude.{◌≡◌, refl, some, List, [], ◌∷◌}
use goshkik_os.Arch.Mmu.{MemmapEntry, memmap_find_biggest_region}
use goshkik_os.Arch.Mmu.Laws.{IsBiggest, memmap_find_biggest_region-IsBiggest}

abbrev memmap : List MemmapEntry
memmap =
    record { base = 0; length = 4096; type = 0 }
    ∷ record { base = 0x9000; length = 0x90000; type = 1 }
    ∷ record { base = 0x100000; length = 81920; type = 0 }
    ∷ []

biggest_run :
    memmap_find_biggest_region memmap ≡ some (record { base = 0x100000; length = 81920; type = 0 })
unfolding memmap_find_biggest_region
biggest_run = refl

memmap_find_biggest_region-IsBiggest_example : IsBiggest memmap (memmap_find_biggest_region memmap)
memmap_find_biggest_region-IsBiggest_example = memmap_find_biggest_region-IsBiggest memmap
