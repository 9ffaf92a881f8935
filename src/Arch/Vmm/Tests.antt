-- ===== src/Arch/Vmm/Tests.antt =====
-- vmm.c on an address space of empty tables with four free pages.
use goshkik_os.Prelude.Memory.{Ptr}
use goshkik_os.Prelude.Run.{Run, done, fault, out_of_fuel, pure, ◌>>=◌, ◌>>◌}
use goshkik_os.Arch.Pmm.Bitmap.{bit_test, bit_set}
use goshkik_os.Arch.Pmm.{pmm_alloc_page}
use goshkik_os.Arch.Pmm.Laws.{Takes}
use goshkik_os.Arch.Vmm.{
  Vmm, walk, walk_from, descend, alloc_table, store_entry, invlpg, clear_entry, frame, pml4_index,
  vmm_map, vmm_unmap, vmm_resolve, map_range, create_address_space,
}
use goshkik_os.Arch.Vmm.Tree.{resolve, Home, IsVmm}
use goshkik_os.Arch.Vmm.Free.{free_count}
use goshkik_os.Arch.Vmm.Laws.{Remaps, vmm_map_lem, vmm_unmap_lem}
use goshkik_os.Arch.Vmm.Resolve.{translate, vmm_resolve_lem}
use goshkik_os.Arch.Vmm.Space.{create_address_space_lem}
use goshkik_os.Arch.Vmm.Range.{offset_in, map_range_lem}
use goshkik_os.Prelude.{
  ℕ, ◌+◌, ◌*◌, ◌%◌, ◌^◌, ◌≤◌, ◌<◌, bit_or, ◌≡◌, refl, ◌&&◌, Option, none, some, arith, ltb, leb,
  if◌then◌else◌,
}
use goshkik_os.Arch.Vmm.Samples.{pages, empty, only_root, empty-IsVmm, four_free}

three_free : 3 ≤ free_count pages
three_free = rw four_free (omega arith)

result : Run Vmm (ℕ × ℕ) → Option (ℕ × ℕ)
result (done r s) = some r
result fault = none
result out_of_fuel = none

-- a page is mapped, found, and unmapped
abbrev map_and_unmap : Vmm → Run Vmm (ℕ × ℕ)
map_and_unmap = do
  vmm_map 0x400000 0x555000 2
  found ← vmm_resolve 0x400123
  vmm_unmap 0x400000
  gone ← vmm_resolve 0x400123
  pure {A = ℕ × ℕ} (found, gone)

mapped_run : result (map_and_unmap empty) ≡ some (0x555123, 0)
unfolding result vmm_map vmm_resolve vmm_unmap walk walk_from descend alloc_table store_entry invlpg
    clear_entry pmm_alloc_page bit_test bit_set
mapped_run = refl

vmm_resolve_lem_example :
    vmm_resolve 0x400123 empty ≡ done (translate empty.tables 0x1000 0x400123) empty
vmm_resolve_lem_example = vmm_resolve_lem 0x400123 empty

vmm_map_lem_example :
    (s' : Vmm) × (home' : Home) × (vmm_map 0x400000 0x555000 2 empty ≡ done tt s')
    × IsVmm s' home'
    × (free_count pages ≤ 3 + free_count s'.pmm)
    × Remaps empty 0x400000 (λ other. bit_or (frame 0x555000) (other % 4096)) s'
vmm_map_lem_example = vmm_map_lem 0x400000 0x555000 2 empty only_root empty-IsVmm three_free refl

abbrev mapped : Vmm
mapped = (vmm_map_lem 0x400000 0x555000 2 empty only_root empty-IsVmm three_free refl).0

abbrev mapped_home : Home
mapped_home = (vmm_map_lem 0x400000 0x555000 2 empty only_root empty-IsVmm three_free refl).1

mapped-IsVmm : IsVmm mapped mapped_home
mapped-IsVmm = (vmm_map_lem 0x400000 0x555000 2 empty only_root empty-IsVmm three_free refl).3

vmm_unmap_lem_example :
    (s' : Vmm) × (vmm_unmap 0x400000 mapped ≡ done tt s')
    × IsVmm s' mapped_home
    × (s'.pmm ≡ mapped.pmm)
    × Remaps mapped 0x400000 (λ other. 0) s'
vmm_unmap_lem_example = vmm_unmap_lem 0x400000 mapped mapped_home mapped-IsVmm

create_address_space_lem_example :
    (new : Ptr) × (s' : Vmm) × (create_address_space empty ≡ done new s')
    × IsVmm s' only_root
    × ((i : ℕ) × Takes pages i (new, s'.pmm) × (only_root new ≡ none))
    × ((virtual : ℕ)
        → resolve s'.tables new virtual
          ≡ (if leb 256 (pml4_index virtual) then resolve empty.tables 0x1000 virtual else 0))
    × ((virtual : ℕ)
        → resolve s'.tables s'.current_pml4 virtual ≡ resolve empty.tables 0x1000 virtual)
create_address_space_lem_example =
    create_address_space_lem empty only_root empty-IsVmm (rw four_free (omega arith))

map_range_lem_example :
    (s' : Vmm) × (home' : Home) × (map_range 1 0x400000 0x400000 empty ≡ done tt s')
    × IsVmm s' home'
    × ((other : ℕ)
        → other < 2 ^ 48
        → resolve s'.tables s'.current_pml4 other ≡ (
            if leb 0x400000 other && ltb other (0x400000 + 1 * 4096)
            then offset_in 0x400000 0x400000 other
            else resolve empty.tables 0x1000 other))
map_range_lem_example =
    map_range_lem 1 0x400000 0x400000 empty only_root empty-IsVmm (rw four_free (omega arith)) refl
      (omega arith) (omega arith)
