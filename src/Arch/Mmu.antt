-- ===== src/Arch/Mmu.antt =====
-- src/arch/x86_64/mem/mmu/mmu.c: the boot loader's memory map and its largest usable region.
-- The regions' fields are those of `struct limine_memmap_entry`.
mod Laws
mod Tests
use goshkik_os.Prelude.{
  ℕ, zero, suc, ◌+◌, ◌-◌, ◌*◌, ◌/◌, ◌%◌, ◌^◌, ◌≤◌, ◌<◌, bit_and, bit_or, ◌≡◌, refl, sym, ap, ◌∙◌,
  fun_ext, ◌≢◌, ◌↔◌, ◌⊎◌, inl, inr, Bool, true, false, not, ◌&&◌, ◌||◌, Option, none, some, List,
  [], ◌∷◌, ◌++◌, map, arith, ltb, leb, ◌==◌, if◌then◌else◌, ltb→lt, lt→ltb, le→ltb, ltb-false,
  leb→le, ==_iff, ==_refl, ne→==, ==_false, Bool-cases, Option-cases, length, get_elem?, get_or,
  set, replicate, length-append, length-set, length-replicate, get_or-replicate, get_or-set,
}

pub record MemmapEntry : Type 0 where
  pub base : ℕ
  pub length : ℕ
  pub type : ℕ

-- `LIMINE_MEMMAP_USABLE`
abbrev pub usable : ℕ
usable = 0

-- The body of the loop of memmap_find_biggest_region: `biggest` after one region.
pub keep_bigger : Option MemmapEntry → MemmapEntry → Option MemmapEntry
keep_bigger biggest e =
    if e.type == usable
    then (elim biggest [
      | none ↦ some e
      | some b ↦ if ltb b.length e.length then some e else some b
    ])
    else biggest

-- The loop, with `biggest` so far (`none` for NULL).
pub find_biggest : Option MemmapEntry → List MemmapEntry → Option MemmapEntry
unfolding keep_bigger
find_biggest biggest [] = biggest
find_biggest biggest (e ∷ es) = find_biggest (keep_bigger biggest e) es

unfoldable pub memmap_find_biggest_region : List MemmapEntry → Option MemmapEntry
unfolding find_biggest
memmap_find_biggest_region memmap = find_biggest none memmap
