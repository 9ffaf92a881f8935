-- ===== src/Arch/Vmm/Space.antt =====
-- create_address_space of vmm.c, and the loop that maps a range of pages.
use goshkik_os.Prelude.Memory.{Ptr, update}
use goshkik_os.Prelude.Run.{done}
use goshkik_os.Arch.Pmm.{pmm_alloc_page}
use goshkik_os.Arch.Pmm.Laws.{Takes}
use goshkik_os.Arch.Vmm.{
  Tables, Vmm, is_present, frame, write_entry, upper, pt_index, pml4_index, pdpt_index, pd_index,
  resolved, copy_upper, create_address_space,
}
use goshkik_os.Arch.Vmm.Tree.{
  arrive, entry_at, resolve, Home, IsVmm, arrive_present, arrive_absent, none≢some, differ,
}
use goshkik_os.Arch.Vmm.Free.{free_count, free_count-pmm_alloc_page, alloc_table_lem}
use goshkik_os.Prelude.{
  ℕ, zero, suc, ◌+◌, ◌*◌, ◌≤◌, ◌<◌, ◌≡◌, refl, sym, ap, ◌∙◌, ◌≢◌, inl, inr, ◌&&◌, none, some, List,
  [], ◌∷◌, arith, ltb, leb, ◌==◌, if◌then◌else◌, lt→ltb, leb→le, leb-false, leb-gt, leb-true,
  ==_iff, ==_refl, ne→==, ==_false, Bool-cases, length,
}

-- entry k of table x after the copy of n entries from i on
abbrev copied : Tables → ℕ → ℕ → Ptr → Ptr → Ptr → ℕ → ℕ
copied tables n i new old x k =
    if (new == x) && (leb i k && ltb k (i + n)) then tables old k else tables x k

one_more :
    (f g : ℕ → ℕ) (i n k : ℕ)
    → (if leb (suc i) k && ltb k (suc i + n) then f k else (if i == k then f i else g k))
      ≡ (if leb i k && ltb k (i + suc n) then f k else g k)
one_more f g i n k = elim (Bool-cases (i == k)) [
  | inl same ↦ let e = ap f ((==_iff i k).0 same) in ground (arith, e, same)
  | inr other ↦ let ne = ==_false i k other in ground (arith, other, ne)
]

copied_more :
    (s : Vmm) (n i : ℕ) (new old : Ptr)
    → new ≢ old
    → (x : Ptr) (k : ℕ)
    → copied (write_entry s.tables new i (s.tables old i)) n (suc i) new old x k
      ≡ copied s.tables (suc n) i new old x k
copied_more s n i new old ne x k = elim (Bool-cases (new == x)) [
  | inl same ↦
      rw (same, ne→== new old ne, sym ((==_iff new x).0 same))
        (one_more (s.tables old) (s.tables new) i n k)
  | inr other ↦ rw other refl
]

copy_upper_lem :
    (n i : ℕ) (new old : Ptr) (s : Vmm)
    → new ≢ old
    → (tables : Tables) × (copy_upper n i new old s ≡ done tt (record s { tables = tables }))
      × ((x : Ptr) (k : ℕ) → tables x k ≡ copied s.tables n i new old x k)
unfolding copy_upper
copy_upper_lem zero i new old s ne = (s.tables, refl, λ x k. ground arith)
copy_upper_lem (suc n) i new old s ne =
    let s1 : Vmm = record s { tables = write_entry s.tables new i (s.tables old i) } in
    let (tables, run, reads) = copy_upper_lem n (suc i) new old s1 ne in
    (tables, run, λ x k. reads x k ∙ copied_more s n i new old ne x k)

-- tables that agree on what the tree holds lead to the same entries
agree :
    (s : Vmm) (home : Home) (v : IsVmm s home) (tables : Tables)
    → ((x : Ptr) (p : List ℕ) → home x ≡ some p → (k : ℕ) → tables x k ≡ s.tables x k)
    → (js : List ℕ) (t : Ptr) (path : List ℕ) → home t ≡ some path
    → length path + length js ≤ 3
    → (k : ℕ) → entry_at tables (arrive tables t js) k ≡ entry_at s.tables (arrive s.tables t js) k
unfolding arrive
agree s home v tables same [] t path h small k = same t path h k
agree s home v tables same (i ∷ is) t path h small k =
    let here = same t path h i in
    elim (Bool-cases (is_present (s.tables t i))) [
      | inl present ↦
          ap (λ r. entry_at tables r k)
            (arrive_present tables t i is (ap is_present here ∙ present)
              ∙ ap (λ e. arrive tables (frame e) is) here)
          ∙ agree s home v tables same is (frame (s.tables t i)) (i ∷ path)
              (v.links t path h (omega arith) i present) (omega arith) k
          ∙ sym (ap (λ r. entry_at s.tables r k) (arrive_present s.tables t i is present))
      | inr absent ↦
          ap (λ r. entry_at tables r k) (arrive_absent tables t i is (ap is_present here ∙ absent))
          ∙ sym (ap (λ r. entry_at s.tables r k) (arrive_absent s.tables t i is absent))
    ]

upper_half : (i : ℕ) → i < 512 → (leb 256 i && ltb i (256 + 256)) ≡ leb 256 i
upper_half i small = rw (lt→ltb i 512 small) (ground arith)

-- Page j became a root table, and got the upper half of the current one.
module _ (s : Vmm) (home : Home) (v : IsVmm s home) (j : ℕ)
    (takes : Takes s.pmm j (pmm_alloc_page s.pmm)) where
  abbrev new : Ptr
  new = (pmm_alloc_page s.pmm).0

  abbrev root : Ptr
  root = s.current_pml4

  abbrev cleared : Vmm
  cleared = record s { tables = update s.tables new (λ _. 0); pmm = (pmm_alloc_page s.pmm).1 }

  not_home : (x : Ptr) (p : List ℕ) → home x ≡ some p → new ≢ x
  not_home x p e = differ home new x (λ same.
      none≢some p (sym (ap home takes.address ∙ v.fresh j takes.inside takes.free) ∙ same ∙ e))

  module _ (tables : Tables)
      (reads : (x : Ptr) (k : ℕ) → tables x k ≡ copied cleared.tables 256 256 new root x k) where
    kept : (x : Ptr) (p : List ℕ) → home x ≡ some p → (k : ℕ) → tables x k ≡ s.tables x k
    kept x p e k = reads x k ∙ rw (ne→== new x (not_home x p e)) refl

    top : (k : ℕ) → k < 512 → tables new k ≡ (if leb 256 k then s.tables root k else 0)
    top k small =
        reads new k
        ∙ rw (==_refl new, upper_half k small, ne→== new root (not_home root [] v.root)) refl

    copied-IsVmm : IsVmm (record cleared { tables = tables }) home
    copied-IsVmm = record {
      root = v.root;
      links = λ t path h shallow i present.
          let same = kept t path h i in
          ap home (ap frame same) ∙ v.links t path h shallow i (sym (ap is_present same) ∙ present);
      fresh = λ k inside free.
          ap home (ap (λ b. b + k * 4096) takes.base)
          ∙ v.fresh k (rw (sym takes.total) inside) (ground (arith, takes.marks k, free));
      valid = takes.valid;
      aligned = λ k inside. rw takes.base (v.aligned k (rw (sym takes.total) inside));
      not_null = λ k inside. rw takes.base (v.not_null k (rw (sym takes.total) inside));
    }

    current_kept : (virtual : ℕ) → resolve tables root virtual ≡ resolve s.tables root virtual
    unfolding resolve
    current_kept virtual =
        ap (resolved virtual) (
          agree s home v tables kept (upper virtual) root [] v.root (omega arith)
            (pt_index virtual))

    below :
        (is : List ℕ) (i k : ℕ)
        → length is ≤ 2
        → i < 512
        → 256 ≤ i
        → entry_at tables (arrive tables new (i ∷ is)) k
          ≡ entry_at s.tables (arrive s.tables root (i ∷ is)) k
    below is i k short small high =
        let same : tables new i ≡ s.tables root i = top i small ∙ rw (leb-true 256 i high) refl in
        elim (Bool-cases (is_present (s.tables root i))) [
          | inl present ↦
              ap (λ r. entry_at tables r k)
                (arrive_present tables new i is (ap is_present same ∙ present)
                  ∙ ap (λ e. arrive tables (frame e) is) same)
              ∙ agree s home v tables kept is (frame (s.tables root i)) (i ∷ [])
                  (v.links root [] v.root (omega arith) i present) (omega arith) k
              ∙ sym (ap (λ r. entry_at s.tables r k) (arrive_present s.tables root i is present))
          | inr absent ↦
              ap (λ r. entry_at tables r k)
                (arrive_absent tables new i is (ap is_present same ∙ absent))
              ∙ sym (ap (λ r. entry_at s.tables r k) (arrive_absent s.tables root i is absent))
        ]

    nothing : (is : List ℕ) (i k : ℕ) → i < 256 → entry_at tables (arrive tables new (i ∷ is)) k ≡ 0
    nothing is i k low =
        let zero_entry : tables new i ≡ 0 = top i (omega arith) ∙ rw (leb-gt 256 i low) refl in
        ap (λ r. entry_at tables r k) (arrive_absent tables new i is (ap is_present zero_entry))

    new_space :
        (virtual : ℕ)
        → resolve tables new virtual
          ≡ (if leb 256 (pml4_index virtual) then resolve s.tables root virtual else 0)
    unfolding resolve
    new_space virtual = elim (Bool-cases (leb 256 (pml4_index virtual))) [
      | inl high ↦ rw high (
          ap (resolved virtual) (
            below (pdpt_index virtual ∷ pd_index virtual ∷ []) (pml4_index virtual)
              (pt_index virtual) (omega arith) (omega arith)
              (leb→le 256 (pml4_index virtual) high)))
      | inr low ↦ rw low (
          ap (resolved virtual) (
            nothing (pdpt_index virtual ∷ pd_index virtual ∷ []) (pml4_index virtual)
              (pt_index virtual) (leb-false 256 (pml4_index virtual) low)))
    ]

-- If the tables form a tree and a page is free, create_address_space returns the address of a page that was
-- free, marks this page and no other as in use, and keeps the current address space, of which the page was no
-- table, as it was. In the new address space the addresses of the upper half resolve as in the
-- current one, and those of the lower half do not resolve.
pub create_address_space_lem :
    (s : Vmm) (home : Home)
    → IsVmm s home
    → 0 < free_count s.pmm
    → (new : Ptr) × (s' : Vmm) × (create_address_space s ≡ done new s')
      × IsVmm s' home
      × ((i : ℕ) × Takes s.pmm i (new, s'.pmm) × (home new ≡ none))
      × ((virtual : ℕ)
          → resolve s'.tables new virtual
            ≡ (if leb 256 (pml4_index virtual) then resolve s.tables s.current_pml4 virtual else 0))
      × ((virtual : ℕ)
          → resolve s'.tables s'.current_pml4 virtual ≡ resolve s.tables s.current_pml4 virtual)
unfolding create_address_space
create_address_space_lem s home v some_free =
    let (j, takes, one) = free_count-pmm_alloc_page s.pmm v.valid some_free in
    let s1 = cleared s home v j takes in
    let (tables, run, reads) =
      copy_upper_lem 256 256 (pmm_alloc_page s.pmm).0 s.current_pml4 s1
        (not_home s home v j takes s.current_pml4 [] v.root) in
    let positive : 0 < (pmm_alloc_page s.pmm).0 =
      let n = v.not_null j takes.inside in let a = takes.address in omega arith in
    (
      (pmm_alloc_page s.pmm).0,
      record s1 { tables = tables },
      rw (alloc_table_lem s positive, run) refl,
      copied-IsVmm s home v j takes tables reads,
      (j, takes, ap home takes.address ∙ v.fresh j takes.inside takes.free),
      new_space s home v j takes tables reads,
      current_kept s home v j takes tables reads,
    )
