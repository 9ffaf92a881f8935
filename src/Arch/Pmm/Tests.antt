-- ===== src/Arch/Pmm/Tests.antt =====
-- A run of pmm.c on a region of 20 pages, and its theorems at concrete states.
use goshkik_os.Prelude.{ℕ, ◌*◌, ◌<◌, ◌≡◌, refl, ◌⊎◌, some, List, [], ◌∷◌, arith}
use goshkik_os.Arch.Mmu.{MemmapEntry, memmap_find_biggest_region}
use goshkik_os.Arch.Pmm.Bitmap.{bit_test, bit_set, bit_clear}
use goshkik_os.Arch.Pmm.{Pmm, init_pmm, pmm_alloc_page, pmm_free_page}
use goshkik_os.Arch.Pmm.Laws.{
  IsPmm, in_use, Takes, Exhausted, pmm_alloc_page_lem, pmm_free_page-pmm_alloc_page,
}

abbrev region : MemmapEntry
region = record { base = 0x100000; length = 20 * 4096; type = 0 }

abbrev memmap : List MemmapEntry
memmap =
    record { base = 0; length = 4096; type = 0 }
    ∷ record { base = 0x9000; length = 0x90000; type = 1 }
    ∷ region
    ∷ []

-- the bitmap's own page 0 is in use
abbrev start : Pmm
start = record { bitmap = 0x01 ∷ 0x00 ∷ 0xF0 ∷ []; managed_base = 0x100000; total_pages = 20 }

init_run : init_pmm memmap ≡ some start
unfolding init_pmm memmap_find_biggest_region bit_clear
init_run = refl

alloc_run : pmm_alloc_page start ≡ (0x101000, record start { bitmap = 0x03 ∷ 0x00 ∷ 0xF0 ∷ [] })
unfolding pmm_alloc_page bit_test bit_set
alloc_run = refl

start-IsPmm : IsPmm start
start-IsPmm = record { bytes = omega arith; covers = refl }

pmm_alloc_page_lem_example :
    Exhausted start (pmm_alloc_page start) ⊎ ((i : ℕ) × Takes start i (pmm_alloc_page start))
pmm_alloc_page_lem_example = pmm_alloc_page_lem start start-IsPmm

alloc_pos : 0 < (pmm_alloc_page start).0
alloc_pos = rw alloc_run (omega arith)

alloc_pos_again : 0 < (pmm_alloc_page (pmm_alloc_page start).1).0
unfolding pmm_alloc_page bit_test bit_set
alloc_pos_again = omega arith

pmm_free_page-pmm_alloc_page_example :
    in_use (pmm_free_page (pmm_alloc_page start).0 (pmm_alloc_page start).1) 1 ≡ in_use start 1
pmm_free_page-pmm_alloc_page_example = pmm_free_page-pmm_alloc_page start 1 start-IsPmm alloc_pos
