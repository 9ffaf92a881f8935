-- ===== src/Arch/Pmm.antt =====
-- src/arch/x86_64/mem/pmm/pmm.c: the physical page allocator. The bitmap is the list of its bytes; a
-- set bit is a page in use. The direct-map address of the bitmap itself is not modelled.
pub mod Bitmap
pub mod Laws
mod Tests
use goshkik_os.Arch.Mmu.{MemmapEntry, memmap_find_biggest_region}
use goshkik_os.Arch.Pmm.Bitmap.{bit_set, bit_clear, bit_test}
use goshkik_os.Prelude.{
  ℕ, zero, suc, ◌+◌, ◌-◌, ◌*◌, ◌/◌, ◌%◌, ◌^◌, ◌≤◌, ◌<◌, bit_and, bit_or, ◌≡◌, refl, sym, ap, ◌∙◌,
  fun_ext, ◌≢◌, ◌↔◌, ◌⊎◌, inl, inr, Bool, true, false, not, ◌&&◌, ◌||◌, Option, none, some, List,
  [], ◌∷◌, ◌++◌, map, arith, ltb, leb, ◌==◌, if◌then◌else◌, ltb→lt, lt→ltb, le→ltb, ltb-false,
  leb→le, ==_iff, ==_refl, ne→==, ==_false, Bool-cases, Option-cases, length, get_elem?, get_or,
  set, replicate, length-append, length-set, length-replicate, get_or-replicate, get_or-set,
}

abbrev pub page_size : ℕ
page_size = 4096

pub record Pmm : Type 0 where
  pub bitmap : List ℕ
  pub managed_base : ℕ
  pub total_pages : ℕ

-- `for (i = first; i < first + n; i++) BIT_CLEAR(pmm_bitmap, i)`
pub clear_bits : ℕ → ℕ → List ℕ → List ℕ
clear_bits zero first b = b
clear_bits (suc n) first b = clear_bits n (first + 1) (bit_clear b first)

-- the pages that the bitmap itself takes
abbrev pub used_pages : ℕ → ℕ
used_pages bitmap_size = (bitmap_size + page_size - 1) / page_size

-- `none` is the halt on a map with no usable region
pub init_pmm : List MemmapEntry → Option Pmm
unfolding clear_bits
init_pmm memmap = elim (memmap_find_biggest_region memmap) [
  | none ↦ none
  | some biggest ↦
      let total = biggest.length / page_size in
      let size = (total + 7) / 8 in
      let used = used_pages size in
      some (record {
        bitmap = clear_bits (total - used) used (replicate size 0xFF);
        managed_base = biggest.base;
        total_pages = total;
      })
]

-- The loop of pmm_alloc_page, with `n` pages left from page `i` on; 0 is its failure.
unfoldable pub alloc_from : ℕ → ℕ → Pmm → ℕ × Pmm
alloc_from zero i s = (0, s)
alloc_from (suc n) i s =
    let rest = alloc_from n (i + 1) s in
    if not (bit_test s.bitmap i)
    then (s.managed_base + i * page_size, record s { bitmap = bit_set s.bitmap i })
    else rest

unfoldable pub pmm_alloc_page : Pmm → ℕ × Pmm
unfolding alloc_from
pmm_alloc_page s = alloc_from s.total_pages 0 s

pub pmm_free_page : ℕ → Pmm → Pmm
pmm_free_page physical_address s =
    if ltb physical_address s.managed_base
    then s
    else let i = (physical_address - s.managed_base) / page_size in
      if ltb i s.total_pages then record s { bitmap = bit_clear s.bitmap i } else s

-- the address in the direct map; 0 is NULL
unfoldable pub pmm_alloc_page_hhdm : ℕ → Pmm → ℕ × Pmm
unfolding pmm_alloc_page
pmm_alloc_page_hhdm g_hhdm_offset s =
    let (physical, s') = pmm_alloc_page s in
    if physical == 0 then (0, s') else ((g_hhdm_offset + physical) % 2 ^ 64, s')
