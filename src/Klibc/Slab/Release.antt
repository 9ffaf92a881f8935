-- ===== src/Klibc/Slab/Release.antt =====
-- slab_free of slab.c on the last object in use of a slab, which gives up the page.
use goshkik_os.Prelude.Memory.{Ptr, update, update_same}
use goshkik_os.Prelude.Run.{done}
use goshkik_os.Arch.Pmm.{pmm_free_page}
use goshkik_os.Arch.Pmm.Laws.{page_at, pmm_free_page_outside}
use goshkik_os.Arch.Vmm.{Vmm, virtual_to_physical}
use goshkik_os.Arch.Vmm.Tree.{Home, IsVmm, resolve}
use goshkik_os.Arch.Vmm.Store.{same_page}
use goshkik_os.Arch.Vmm.Laws.{Remaps, vmm_unmap_lem}
use goshkik_os.Klibc.Slab.{
  Slab, SlabCache, Slabs, slab_from_object, slab_free, refile_slab, release_slab, give_page, on_vmm,
}
use goshkik_os.Klibc.Slab.Alloc.{load_slab_lem, unlink_head}
use goshkik_os.Klibc.Slab.Free.{push_lem, pushed}
use goshkik_os.Prelude.{
  ℕ, suc, ◌+◌, ◌-◌, ◌%◌, ◌^◌, ◌≤◌, ◌<◌, ◌≡◌, refl, ap, ◌∙◌, inr, true, some, arith, ==_iff, ne→==,
}

-- The slab of the object o is the first of the partial list, and o is its only object in use. The slab
-- lies below the direct map, and the managed pages end where the direct map would put it.
pub record IsLast (g_hhdm_offset : ℕ) (s : Slabs) (cache : Ptr) (c : SlabCache) (b : Slab) (o : Ptr)
    (home : Home) : Type 0 where
  pub cache_positive : 0 < cache
  pub object_positive : 0 < o
  pub slab_positive : 0 < slab_from_object o
  pub cache_at : s.caches cache ≡ some c
  pub slab_at : s.slabs (slab_from_object o) ≡ some b
  pub head : c.partial ≡ slab_from_object o
  pub some_free : 0 < b.free_count
  pub all_but_one : suc b.free_count ≡ b.total_objects
  pub small : b.total_objects < 2 ^ 32
  pub tree : IsVmm s.vmm home
  pub below : slab_from_object o < g_hhdm_offset
  pub canonical : g_hhdm_offset < 2 ^ 64
  pub beyond :
      page_at s.vmm.pmm s.vmm.pmm.total_pages ≤ slab_from_object o + (2 ^ 64 - g_hhdm_offset)

release_lem :
    (g : ℕ) (s : Slabs) (home : Home) (slab : Ptr)
    → IsVmm s.vmm home
    → slab < g
    → g < 2 ^ 64
    → page_at s.vmm.pmm s.vmm.pmm.total_pages ≤ slab + (2 ^ 64 - g)
    → (v : Vmm) × (release_slab g slab s ≡ done tt (record s { vmm = v }))
      × (v.pmm ≡ s.vmm.pmm)
      × Remaps s.vmm slab (λ other. 0) v
unfolding release_slab give_page on_vmm
release_lem g s home slab tree below canonical beyond =
    let (v, run, valid, same, maps) = vmm_unmap_lem slab s.vmm home tree in
    let high : virtual_to_physical g slab ≡ slab + (2 ^ 64 - g) = omega arith in
    let kept : pmm_free_page (virtual_to_physical g slab) s.vmm.pmm ≡ s.vmm.pmm =
      pmm_free_page_outside s.vmm.pmm (virtual_to_physical g slab) (inr (rw high beyond)) in
    let kept' : pmm_free_page (virtual_to_physical g slab) v.pmm ≡ s.vmm.pmm =
      ap (pmm_free_page (virtual_to_physical g slab)) same ∙ kept in
    (
      record v { pmm = pmm_free_page (virtual_to_physical g slab) v.pmm },
      rw run refl,
      kept',
      record { same_root = maps.same_root; translates = maps.translates },
    )

-- With its slab at the head of the partial list, slab_free of the last object in use takes the slab off
-- the list and out of the page tables, but leaves every page that was in use as it was: the page of the
-- slab is not given back.
pub slab_free_leaks :
    (g fuel : ℕ) (s : Slabs) (cache : Ptr) (c : SlabCache) (b : Slab) (o : Ptr) (home : Home)
    → IsLast g s cache c b o home
    → (s' : Slabs) × (slab_free g (suc fuel) cache o s ≡ done tt s')
      × (s'.caches cache ≡ some (record c { partial = b.next }))
      × (s'.vmm.pmm ≡ s.vmm.pmm)
      × ((other : ℕ)
          → same_page (slab_from_object o) other ≡ true
          → resolve s'.vmm.tables s'.vmm.current_pml4 other ≡ 0)
unfolding refile_slab
slab_free_leaks g fuel s cache c b o home l =
    let slab = slab_from_object o in
    let s1 = pushed s c slab b o in
    let b1 : Slab = record b { free_list = o; free_count = (b.free_count + 1) % 2 ^ 32 } in
    let sa : s1.slabs slab ≡ some b1 = update_same s.slabs slab (some b1) in
    let all : (b.free_count + 1) % 2 ^ 32 ≡ b.total_objects =
      let a = l.all_but_one in let k = l.small in omega arith in
    let s2 : Slabs = record s1 {
      caches = update s.caches cache (some (record c { partial = b.next }));
    } in
    let (v, run, same, maps) = release_lem g s2 home slab l.tree l.below l.canonical l.beyond in
    (
      record s2 { vmm = v },
      push_lem g (suc fuel) s cache c b o l.cache_positive l.object_positive l.slab_positive
            l.cache_at l.slab_at
          ∙ rw
              (
                ne→== b.free_count 0 (λ e. absurd (let p = l.some_free in omega arith)),
                load_slab_lem slab s1 b1 l.slab_positive sa,
                (==_iff _ _).1 all,
                unlink_head fuel cache c slab b1 s1 l.cache_positive l.slab_positive l.cache_at sa
                    l.head,
              )
              run,
      update_same s.caches cache (some (record c { partial = b.next })),
      same,
      λ other in_page. maps.translates other ∙ rw in_page refl,
    )
