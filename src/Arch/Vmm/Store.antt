-- ===== src/Arch/Vmm/Store.antt =====
-- A write to an entry of a last table: which addresses it changes, and that the tree stays one.
use goshkik_os.Prelude.Memory.{Ptr, update, update_same, update_other}
use goshkik_os.Arch.Vmm.{
  Tables, Vmm, is_present, frame, write_entry, pml4_index, pdpt_index, pd_index, pt_index, upper,
  resolved,
}
use goshkik_os.Arch.Vmm.Tree.{
  arrive, entry_at, resolve, Home, IsVmm, arrive-home, arrive_write, differ, length_differ,
  some_injective,
}
use goshkik_os.Prelude.{
  ℕ, ◌/◌, ◌%◌, ◌^◌, ◌≡◌, refl, sym, ap, ap₂, ◌∙◌, subst, ◌≢◌, inl, inr, Bool, true, some, List, [],
  arith, ◌==◌, if◌then◌else◌, ==_iff, ==_false, Bool-cases, Option-cases, get_or, rev_onto,
}

-- two addresses lie in the same page of the address space
abbrev pub same_page : ℕ → ℕ → Bool
same_page virtual other = virtual / 4096 % 2 ^ 36 == other / 4096 % 2 ^ 36

upper_same :
    (x y : ℕ)
    → x / 4096 % 2 ^ 36 ≡ y / 4096 % 2 ^ 36
    → (upper x ≡ upper y) × (pt_index x ≡ pt_index y)
upper_same x y e =
    let a : pml4_index x ≡ pml4_index y = omega arith in
    let b : pdpt_index x ≡ pdpt_index y = omega arith in
    let c : pd_index x ≡ pd_index y = omega arith in (rw (a, b, c) refl, omega arith)

upper_differ :
    (x y : ℕ)
    → x / 4096 % 2 ^ 36 ≢ y / 4096 % 2 ^ 36
    → rev_onto (upper x) [] ≡ rev_onto (upper y) []
    → pt_index x ≢ pt_index y
upper_differ x y ne e same =
    let a : pd_index x ≡ pd_index y = ap (λ l. get_or l 0 0) e in
    let b : pdpt_index x ≡ pdpt_index y = ap (λ l. get_or l 1 0) e in
    let c : pml4_index x ≡ pml4_index y = ap (λ l. get_or l 2 0) e in ne (omega arith)

-- the addresses of one page go through one entry
pub resolve_page :
    (tables : Tables) (root : Ptr) (virtual other : ℕ)
    → same_page virtual other ≡ true
    → resolve tables root other
      ≡ resolved other (entry_at tables (arrive tables root (upper virtual)) (pt_index virtual))
unfolding resolve
resolve_page tables root virtual other same =
    let (above, last) = upper_same virtual other ((==_iff _ _).0 same) in
    ap (resolved other) (sym (ap₂ (λ u i. entry_at tables (arrive tables root u) i) above last))

-- The walk for an address ends at a last table.
module _ (s : Vmm) (home : Home) (v : IsVmm s home) (virtual : ℕ) (leaf : Ptr)
    (ends : arrive s.tables s.current_pml4 (upper virtual) ≡ some leaf) (e : ℕ) where
  abbrev root : Ptr
  root = s.current_pml4

  abbrev pub stored : Tables
  stored = write_entry s.tables leaf (pt_index virtual) e

  leaf_home : home leaf ≡ some (rev_onto (upper virtual) [])
  leaf_home = arrive-home s home v (upper virtual) root leaf [] v.root (omega arith) ends

  paths_kept : (other : ℕ) → arrive stored root (upper other) ≡ arrive s.tables root (upper other)
  paths_kept other =
      arrive_write s home v leaf (rev_onto (upper virtual) []) (pt_index virtual) e leaf_home refl
        (upper other) root [] v.root (omega arith)

  entry_stored : stored leaf (pt_index virtual) ≡ e
  entry_stored =
      ap (λ f. f (pt_index virtual))
        (update_same s.tables leaf (update (s.tables leaf) (pt_index virtual) e))
      ∙ update_same (s.tables leaf) (pt_index virtual) e

  entry_other :
      (other : ℕ)
      → virtual / 4096 % 2 ^ 36 ≢ other / 4096 % 2 ^ 36
      → (x : Ptr) → arrive s.tables root (upper other) ≡ some x
      → stored x (pt_index other) ≡ s.tables x (pt_index other)
  entry_other other ne x at = elim (Bool-cases (leaf == x)) [
    | inl same ↦
        let there = (==_iff leaf x).0 same in
        let x_home = arrive-home s home v (upper other) root x [] v.root (omega arith) at in
        let off =
          upper_differ virtual other ne (some_injective (sym leaf_home ∙ ap home there ∙ x_home)) in
        ap (λ f. f (pt_index other))
          (subst (λ y. stored y ≡ update (s.tables y) (pt_index virtual) e) there
            (update_same s.tables leaf (update (s.tables leaf) (pt_index virtual) e)))
        ∙ update_other (s.tables x) (pt_index virtual) e (pt_index other) off
    | inr away ↦
        ap (λ f. f (pt_index other))
          (update_other s.tables leaf (update (s.tables leaf) (pt_index virtual) e) x
            (==_false leaf x away))
  ]

  -- The addresses of the page lead where the entry says, all others where they led.
  pub resolve-stored :
      (other : ℕ)
      → resolve stored root other
        ≡ (if same_page virtual other then resolved other e else resolve s.tables root other)
  unfolding resolve
  resolve-stored other = elim (Bool-cases (same_page virtual other)) [
    | inl same ↦
        let (above, last) = upper_same virtual other ((==_iff _ _).0 same) in
        rw same (
          ap (resolved other) (
            ap (λ r. entry_at stored r (pt_index other))
              (paths_kept other ∙ ap (arrive s.tables root) (sym above) ∙ ends)
            ∙ ap (stored leaf) (sym last)
            ∙ entry_stored))
    | inr away ↦ rw away (
        ap (resolved other) (
          ap (λ r. entry_at stored r (pt_index other)) (paths_kept other)
          ∙ elim (Option-cases (arrive s.tables root (upper other))) [
            | inl none_there ↦ rw none_there refl
            | inr (x, there) ↦ rw there (entry_other other (==_false _ _ away) x there)
          ]))
  ]

  pub stored-IsVmm :
      (flushed : List ℕ) → IsVmm (record s { tables = stored; flushed = flushed }) home
  stored-IsVmm flushed = record {
    root = v.root;
    links = λ t path h shallow i present.
        let ne : leaf ≢ t = differ home leaf t (λ same.
          length_differ (rev_onto (upper virtual) []) path (λ l. absurd (omega arith))
            (sym leaf_home ∙ same ∙ h)) in
        let kept =
          ap (λ f. f i)
            (update_other s.tables leaf (update (s.tables leaf) (pt_index virtual) e) t ne) in
        ap home (ap frame kept) ∙ v.links t path h shallow i (sym (ap is_present kept) ∙ present);
    fresh = v.fresh;
    valid = v.valid;
    aligned = v.aligned;
    not_null = v.not_null;
  }
