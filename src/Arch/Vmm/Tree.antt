-- ===== src/Arch/Vmm/Tree.antt =====
-- The page tables of vmm.c read as a tree: where an address leads, and when the tables form a tree.
use goshkik_os.Prelude.Masks.{bit_and-bit_or, bit_and_twice, bit_or-zero, bit_and-one, bit_or-one}
use goshkik_os.Prelude.Memory.{Ptr, update, update_other}
use goshkik_os.Arch.Pmm.Laws.{IsPmm, in_use, page_at}
use goshkik_os.Arch.Vmm.{
  page_mask, Tables, Vmm, is_present, frame, write_entry, table_entry, upper, pt_index, resolved,
  vmm_present,
}
use goshkik_os.Prelude.{
  ℕ, ◌+◌, ◌≤◌, ◌<◌, bit_and, bit_or, ◌≡◌, refl, sym, ap, ◌∙◌, subst, ◌≢◌, inl, inr, true, false,
  Option, none, some, List, [], ◌∷◌, arith, if◌then◌else◌, Bool-cases, length, rev_onto,
}

-- the table at the end of a path of indices, if every entry on the way is present
unfoldable pub arrive : Tables → Ptr → List ℕ → Option Ptr
arrive tables t [] = some t
arrive tables t (i ∷ is) =
    let rest = arrive tables (frame (tables t i)) is in
    if is_present (tables t i) then rest else none

abbrev pub entry_at : Tables → Option Ptr → ℕ → ℕ
entry_at tables none k = 0
entry_at tables (some t) k = tables t k

-- the physical address of a virtual one, in the address space of a root table; 0 where none is mapped
unfoldable pub resolve : Tables → Ptr → ℕ → ℕ
unfolding arrive
resolve tables root virtual =
    resolved virtual (entry_at tables (arrive tables root (upper virtual)) (pt_index virtual))

-- the indices on the way to a table, the last one first
abbrev pub Home : Type 0
Home = Ptr → Option (List ℕ)

-- The tables of the state form a tree under current_pml4: a table is reached by one path only, and no
-- free page is a table. The managed pages are aligned, and none is page 0.
pub record IsVmm (s : Vmm) (home : Home) : Type 0 where
  pub root : home s.current_pml4 ≡ some []
  pub links :
      (t : Ptr) (path : List ℕ)
      → home t ≡ some path
      → length path < 3
      → (i : ℕ) → is_present (s.tables t i) ≡ true
      → home (frame (s.tables t i)) ≡ some (i ∷ path)
  pub fresh :
      (i : ℕ) → i < s.pmm.total_pages → in_use s.pmm i ≡ false → home (page_at s.pmm i) ≡ none
  pub valid : IsPmm s.pmm
  pub aligned : (i : ℕ) → i < s.pmm.total_pages → frame (page_at s.pmm i) ≡ page_at s.pmm i
  pub not_null : (i : ℕ) → i < s.pmm.total_pages → 0 < page_at s.pmm i

pub arrive_present :
    (tables : Tables) (t : Ptr) (i : ℕ) (is : List ℕ)
    → is_present (tables t i) ≡ true
    → arrive tables t (i ∷ is) ≡ arrive tables (frame (tables t i)) is
unfolding arrive
arrive_present tables t i is h = rw h

pub arrive_absent :
    (tables : Tables) (t : Ptr) (i : ℕ) (is : List ℕ)
    → is_present (tables t i) ≡ false
    → arrive tables t (i ∷ is) ≡ none
unfolding arrive
arrive_absent tables t i is h = rw h

pub some_injective : {A : Type 0} {x y : A} → some x ≡ some y → x ≡ y
some_injective {A} {x} e = ap (λ o. or_else o) e
  where
    or_else : Option A → A
    or_else none = x
    or_else (some y) = y

-- two tables with different homes are different
pub differ : (home : Home) (x y : Ptr) → home x ≢ home y → x ≢ y
differ home x y ne e = ne (ap home e)

pub length_differ : (p q : List ℕ) → length p ≢ length q → some p ≢ some q
length_differ p q ne e = ne (ap length (some_injective e))

pub none≢some : {A : Type 0} (x : A) → none ≢ some x
none≢some {A} x e = subst (λ o. is_none o) e tt
  where
    is_none : Option A → Type 0
    is_none none = Unit
    is_none (some y) = ⊥

-- a table on a path lies at home there
pub arrive-home :
    (s : Vmm) (home : Home) (v : IsVmm s home) (js : List ℕ) (t x : Ptr) (path : List ℕ)
    → home t ≡ some path
    → length path + length js ≤ 3
    → arrive s.tables t js ≡ some x
    → home x ≡ some (rev_onto js path)
unfolding arrive
arrive-home s home v [] t x path h small e = ap home (sym (some_injective e)) ∙ h
arrive-home s home v (i ∷ is) t x path h small e = elim (Bool-cases (is_present (s.tables t i))) [
  | inl present ↦
      arrive-home s home v is (frame (s.tables t i)) x (i ∷ path)
        (v.links t path h (omega arith) i present) (omega arith)
        (sym (arrive_present s.tables t i is present) ∙ e)
  | inr absent ↦ absurd (none≢some x (sym (arrive_absent s.tables t i is absent) ∙ e))
]

-- a write to a table that no path of this length reads changes no path
pub arrive_write :
    (s : Vmm) (home : Home) (v : IsVmm s home) (leaf : Ptr) (q : List ℕ) (k e : ℕ)
    → home leaf ≡ some q
    → length q ≡ 3
    → (js : List ℕ) (t : Ptr) (path : List ℕ) → home t ≡ some path
    → length path + length js ≤ 3
    → arrive (write_entry s.tables leaf k e) t js ≡ arrive s.tables t js
unfolding arrive
arrive_write s home v leaf q k e hq lq [] t path h small = refl
arrive_write s home v leaf q k e hq lq (i ∷ is) t path h small =
    let ne : leaf ≢ t =
      differ home leaf t
        (λ same. length_differ q path (λ l. absurd (omega arith)) (sym hq ∙ same ∙ h)) in
    let same = ap (λ f. f i) (update_other s.tables leaf (update (s.tables leaf) k e) t ne) in
    elim (Bool-cases (is_present (s.tables t i))) [
      | inl present ↦
          arrive_present (write_entry s.tables leaf k e) t i is (ap is_present same ∙ present)
          ∙ ap (λ x. arrive (write_entry s.tables leaf k e) (frame x) is) same
          ∙ arrive_write s home v leaf q k e hq lq is (frame (s.tables t i)) (i ∷ path)
              (v.links t path h (omega arith) i present) (omega arith)
          ∙ sym (arrive_present s.tables t i is present)
      | inr absent ↦
          arrive_absent (write_entry s.tables leaf k e) t i is (ap is_present same ∙ absent)
          ∙ sym (arrive_absent s.tables t i is absent)
    ]

-- what the bits of an entry say
pub present_entry : (x : ℕ) → is_present (bit_or x vmm_present) ≡ true
present_entry x = rw (bit_and-one (bit_or x 1), bit_or-one x) refl

pub frame_twice : (x : ℕ) → frame (frame x) ≡ frame x
frame_twice x = bit_and_twice x page_mask

pub frame_entry :
    (x flags : ℕ) → frame flags ≡ 0 → frame (bit_or (bit_or (frame x) flags) vmm_present) ≡ frame x
frame_entry x flags h =
    rw
      (
        bit_and-bit_or (bit_or (frame x) flags) vmm_present page_mask,
        bit_and-bit_or (frame x) flags page_mask,
        h,
        frame_twice x,
        bit_or-zero (frame x),
      )
      (bit_or-zero (frame x))

pub present-table_entry : (new : ℕ) → is_present (table_entry new) ≡ true
present-table_entry new =
    rw (bit_and-bit_or (bit_or (frame new) 1) 2 1, bit_or-zero (bit_and (bit_or (frame new) 1) 1))
      (present_entry (frame new))

pub frame-table_entry : (new : ℕ) → frame (table_entry new) ≡ frame new
frame-table_entry new =
    rw
      (
        bit_and-bit_or (bit_or (frame new) 1) 2 page_mask,
        bit_and-bit_or (frame new) 1 page_mask,
        frame_twice new,
        bit_or-zero (frame new),
      )
      (bit_or-zero (frame new))
