-- ===== src/Arch/Vmm/Laws.antt =====
-- vmm.c against the map of addresses that its tables stand for.
use goshkik_os.Prelude.Run.{done}
use goshkik_os.Arch.Pmm.Laws.{in_use}
use goshkik_os.Arch.Vmm.{
  Vmm, is_present, frame, walk, upper, pt_index, resolved, invlpg, store_entry, vmm_map,
  clear_entry, vmm_unmap, write_entry, vmm_present,
}
use goshkik_os.Arch.Vmm.Tree.{arrive, entry_at, resolve, Home, IsVmm, present_entry, frame_entry}
use goshkik_os.Arch.Vmm.Free.{free_count}
use goshkik_os.Arch.Vmm.Link.{Extends}
use goshkik_os.Arch.Vmm.Walk.{walk_from-Walked, walk_from_reads}
use goshkik_os.Arch.Vmm.Store.{same_page, resolve_page, resolve-stored, stored-IsVmm}
use goshkik_os.Prelude.{
  ℕ, ◌+◌, ◌%◌, ◌≤◌, bit_or, ◌≡◌, refl, ap, ◌∙◌, inl, inr, true, false, some, [], ◌∷◌, if◌then◌else◌,
  Bool-cases, Option-cases,
}

-- the state after a call that gave the page of `virtual` the addresses `now`
pub record Remaps (s : Vmm) (virtual : ℕ) (now : ℕ → ℕ) (s' : Vmm) : Type 0 where
  pub same_root : s'.current_pml4 ≡ s.current_pml4
  pub translates :
      (other : ℕ)
      → resolve s'.tables s'.current_pml4 other
        ≡ (if same_page virtual other then now other else resolve s.tables s.current_pml4 other)

extended :
    (s s' : Vmm) (home home' : Home)
    → IsVmm s home
    → Extends s home s' home'
    → (other : ℕ) → resolve s'.tables s.current_pml4 other ≡ resolve s.tables s.current_pml4 other
unfolding resolve
extended s s' home home' v x other =
    ap (resolved other) (x.reads (upper other) s.current_pml4 [] v.root refl (pt_index other))

-- vmm_map with what it does to the pages that were in use before
pub vmm_map_keeps :
    (virtual physical flags : ℕ) (s : Vmm) (home : Home)
    → IsVmm s home
    → 3 ≤ free_count s.pmm
    → frame flags ≡ 0
    → (s' : Vmm) × (home' : Home) × (vmm_map virtual physical flags s ≡ done tt s')
      × IsVmm s' home'
      × (free_count s.pmm ≤ 3 + free_count s'.pmm)
      × Remaps s virtual (λ other. bit_or (frame physical) (other % 4096)) s'
      × ((i : ℕ) → in_use s.pmm i ≡ true → in_use s'.pmm i ≡ true)
unfolding vmm_map walk invlpg store_entry
vmm_map_keeps virtual physical flags s home v enough clear =
    let w = walk_from-Walked (upper virtual) s home s.current_pml4 [] v v.root refl enough in
    let e = bit_or (bit_or (frame physical) flags) vmm_present in
    let root = w.extends.same_root in
    let ends : arrive w.after.tables w.after.current_pml4 (upper virtual) ≡ some w.leaf =
      rw root w.arrives in
    (
      record w.after {
        tables = write_entry w.after.tables w.leaf (pt_index virtual) e;
        flushed = virtual ∷ w.after.flushed;
      },
      w.home_after,
      rw w.walks refl,
      stored-IsVmm w.after w.home_after w.valid virtual w.leaf ends e (virtual ∷ w.after.flushed),
      w.left,
      record {
        same_root = root;
        translates = λ other.
            resolve-stored w.after w.home_after w.valid virtual w.leaf ends e other
            ∙ rw
                (
                  present_entry (bit_or (frame physical) flags),
                  frame_entry physical flags clear,
                  root,
                  extended s w.after home w.home_after v w.extends other,
                )
                refl;
      },
      w.extends.used,
    )

-- If the tables form a tree, three pages are free, and the flags lie outside the address bits, vmm_map
-- returns and takes at most three pages. The tables form a tree again, every address of the mapped page
-- resolves to the same offset in the physical page, and every other address resolves as before.
pub vmm_map_lem :
    (virtual physical flags : ℕ) (s : Vmm) (home : Home)
    → IsVmm s home
    → 3 ≤ free_count s.pmm
    → frame flags ≡ 0
    → (s' : Vmm) × (home' : Home) × (vmm_map virtual physical flags s ≡ done tt s')
      × IsVmm s' home'
      × (free_count s.pmm ≤ 3 + free_count s'.pmm)
      × Remaps s virtual (λ other. bit_or (frame physical) (other % 4096)) s'
vmm_map_lem virtual physical flags s home v enough clear =
    let (s', home', run, valid, left, maps, keeps) =
      vmm_map_keeps virtual physical flags s home v enough clear in
    (s', home', run, valid, left, maps)

absent_page :
    (s : Vmm) (virtual : ℕ)
    → is_present
        (entry_at s.tables (arrive s.tables s.current_pml4 (upper virtual)) (pt_index virtual))
      ≡ false
    → Remaps s virtual (λ other. 0) s
absent_page s virtual absent = record {
  same_root = refl;
  translates = λ other. elim (Bool-cases (same_page virtual other)) [
    | inl same ↦ rw same (resolve_page s.tables s.current_pml4 virtual other same ∙ rw absent refl)
    | inr away ↦ rw away refl
  ];
}

-- If the tables form a tree, vmm_unmap returns and takes no page. The tables form a tree again, no
-- address of the page resolves, and every other address resolves as before.
pub vmm_unmap_lem :
    (virtual : ℕ) (s : Vmm) (home : Home)
    → IsVmm s home
    → (s' : Vmm) × (vmm_unmap virtual s ≡ done tt s')
      × IsVmm s' home
      × (s'.pmm ≡ s.pmm)
      × Remaps s virtual (λ other. 0) s'
unfolding vmm_unmap walk clear_entry invlpg store_entry
vmm_unmap_lem virtual s home v =
    elim (Option-cases (arrive s.tables s.current_pml4 (upper virtual))) [
      | inl missing ↦ (
        s,
        rw (walk_from_reads (upper virtual) s.current_pml4 s, missing) refl,
        v,
        refl,
        absent_page s virtual (rw missing refl),
      )
      | inr (t, there) ↦ elim (Bool-cases (is_present (s.tables t (pt_index virtual)))) [
        | inl present ↦ (
          record s {
            tables = write_entry s.tables t (pt_index virtual) 0;
            flushed = virtual ∷ s.flushed;
          },
          rw (walk_from_reads (upper virtual) s.current_pml4 s, there, present) refl,
          stored-IsVmm s home v virtual t there 0 (virtual ∷ s.flushed),
          refl,
          record {
            same_root = refl;
            translates = λ other. resolve-stored s home v virtual t there 0 other;
          },
        )
        | inr absent ↦ (
          s,
          rw (walk_from_reads (upper virtual) s.current_pml4 s, there, absent) refl,
          v,
          refl,
          absent_page s virtual (rw there absent),
        )
      ]
    ]
