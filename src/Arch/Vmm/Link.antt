-- ===== src/Arch/Vmm/Link.antt =====
-- The step of walk in vmm.c that links a new table: what it adds and what it leaves alone.
use goshkik_os.Prelude.Memory.{Ptr, update, update_same, update_other}
use goshkik_os.Prelude.Run.{done}
use goshkik_os.Arch.Pmm.{pmm_alloc_page}
use goshkik_os.Arch.Pmm.Laws.{in_use, page_at, Takes}
use goshkik_os.Arch.Vmm.{
  Tables, Vmm, is_present, frame, write_entry, table_entry, descend, store_entry,
}
use goshkik_os.Arch.Vmm.Tree.{
  arrive, entry_at, Home, IsVmm, arrive_present, arrive_absent, differ, none≢some, length_differ,
  some_injective, present-table_entry, frame-table_entry,
}
use goshkik_os.Arch.Vmm.Free.{alloc_table_lem}
use goshkik_os.Prelude.{
  ℕ, ◌+◌, ◌*◌, ◌<◌, ◌≡◌, refl, sym, ap, ap₂, ◌∙◌, subst, subst₂, ◌≢◌, ◌⊎◌, inl, inr, true, false,
  none, some, List, [], ◌∷◌, arith, ◌==◌, if◌then◌else◌, ==_iff, ==_refl, ==_false, Bool-cases,
  length,
}

-- The second state is the first with more tables: every address leads to the same entry, and no page that
-- was in use is free.
pub record Extends (s : Vmm) (home : Home) (s' : Vmm) (home' : Home) : Type 0 where
  pub same_root : s'.current_pml4 ≡ s.current_pml4
  pub homes : (t : Ptr) (p : List ℕ) → home t ≡ some p → home' t ≡ some p
  pub links_kept :
      (t : Ptr) (p : List ℕ)
      → home t ≡ some p
      → length p < 3
      → (i : ℕ) → is_present (s.tables t i) ≡ true
      → s'.tables t i ≡ s.tables t i
  pub reads :
      (js : List ℕ) (t : Ptr) (p : List ℕ)
      → home t ≡ some p
      → length p + length js ≡ 3
      → (k : ℕ)
      → entry_at s'.tables (arrive s'.tables t js) k ≡ entry_at s.tables (arrive s.tables t js) k
  pub used : (i : ℕ) → in_use s.pmm i ≡ true → in_use s'.pmm i ≡ true

pub Extends-refl : (s : Vmm) (home : Home) → Extends s home s home
Extends-refl s home = record {
  same_root = refl;
  homes = λ t p h. h;
  links_kept = λ t p h l i e. refl;
  reads = λ js t p h l k. refl;
  used = λ i u. u;
}

pub Extends-trans :
    (s s1 s2 : Vmm) (home home1 home2 : Home)
    → Extends s home s1 home1
    → Extends s1 home1 s2 home2
    → Extends s home s2 home2
Extends-trans s s1 s2 home home1 home2 a b = record {
  same_root = b.same_root ∙ a.same_root;
  homes = λ t p h. b.homes t p (a.homes t p h);
  links_kept = λ t p h l i e.
      let kept = a.links_kept t p h l i e in
      b.links_kept t p (a.homes t p h) l i (ap is_present kept ∙ e) ∙ kept;
  reads = λ js t p h l k. b.reads js t p (a.homes t p h) l k ∙ a.reads js t p h l k;
  used = λ i u. b.used i (a.used i u);
}

-- below a table of zeros there is nothing
pub arrive_zeros :
    (tables : Tables) (t : Ptr) (js : List ℕ) (k : ℕ)
    → ((i : ℕ) → tables t i ≡ 0)
    → entry_at tables (arrive tables t js) k ≡ 0
unfolding arrive
arrive_zeros tables t [] k zeros = zeros k
arrive_zeros tables t (i ∷ is) k zeros =
    ap (λ r. entry_at tables r k) (arrive_absent tables t i is (ap is_present (zeros i)))

-- A table t at home at path has no entry i, and page j is free.
module _ (s : Vmm) (home : Home) (v : IsVmm s home) (t : Ptr) (path : List ℕ)
    (h : home t ≡ some path) (shallow : length path < 3) (i : ℕ)
    (absent : is_present (s.tables t i) ≡ false) (j : ℕ)
    (takes : Takes s.pmm j (pmm_alloc_page s.pmm)) where
  abbrev new : Ptr
  new = (pmm_alloc_page s.pmm).0

  abbrev pub linked : Vmm
  linked = record s {
    tables = write_entry (update s.tables new (λ _. 0)) t i (table_entry new);
    pmm = (pmm_alloc_page s.pmm).1;
  }

  abbrev pub linked_home : Home
  linked_home = update home new (some (i ∷ path))

  was_free : home new ≡ none
  was_free = ap home takes.address ∙ v.fresh j takes.inside takes.free

  other : (x : Ptr) (p : List ℕ) → home x ≡ some p → new ≢ x
  other x p e = differ home new x (λ same. none≢some p (sym was_free ∙ same ∙ e))

  homes_kept : (x : Ptr) (p : List ℕ) → home x ≡ some p → linked_home x ≡ some p
  homes_kept x p e = update_other home new (some (i ∷ path)) x (other x p e) ∙ e

  zeros : (k : ℕ) → linked.tables new k ≡ 0
  zeros k =
      ap (λ f. f k)
        (update_other (update s.tables new (λ _. 0)) t
            (update (update s.tables new (λ _. 0) t) i (table_entry new)) new
            (λ e. other t path h (sym e))
          ∙ update_same s.tables new (λ _. 0))

  entry_kept :
      (x : Ptr) (p : List ℕ) → home x ≡ some p → t ≢ x → (k : ℕ) → linked.tables x k ≡ s.tables x k
  entry_kept x p e ne k =
      ap (λ f. f k)
        (update_other (update s.tables new (λ _. 0)) t
            (update (update s.tables new (λ _. 0) t) i (table_entry new)) x ne
          ∙ update_other s.tables new (λ _. 0) x (other x p e))

  entry_linked : (k : ℕ) → linked.tables t k ≡ (if i == k then table_entry new else s.tables t k)
  entry_linked k = rw (==_refl t, update_other s.tables new (λ _. 0) t (other t path h)) refl

  page_frame : frame (table_entry new) ≡ new
  page_frame =
      frame-table_entry new ∙ ap frame takes.address ∙ v.aligned j takes.inside ∙ sym takes.address

  -- every entry of an upper table is the new one, or an old one
  entry_cases :
      (x : Ptr) (p : List ℕ)
      → home x ≡ some p
      → (k : ℕ) → ((t ≡ x) × (i ≡ k)) ⊎ (linked.tables x k ≡ s.tables x k)
  entry_cases x p e k = elim (Bool-cases (t == x)) [
    | inr ne ↦ inr (entry_kept x p e (==_false t x ne) k)
    | inl eq ↦
        let same = (==_iff t x).0 eq in
        elim (Bool-cases (i == k)) [
          | inl at ↦ inl (same, (==_iff i k).0 at)
          | inr off ↦
              inr
                (subst (λ y. linked.tables y k ≡ s.tables y k) same (entry_linked k ∙ rw off refl))
        ]
  ]

  entry_new : linked.tables t i ≡ table_entry new
  entry_new = entry_linked i ∙ rw (==_refl i) refl

  reads_kept :
      (js : List ℕ) (x : Ptr) (p : List ℕ)
      → home x ≡ some p
      → length p + length js ≡ 3
      → (k : ℕ)
      → entry_at linked.tables (arrive linked.tables x js) k
        ≡ entry_at s.tables (arrive s.tables x js) k
  unfolding arrive
  reads_kept [] x p e l k =
      entry_kept x p e
        (differ home t x
          (λ same. length_differ path p (λ z. absurd (omega arith)) (sym h ∙ same ∙ e)))
        k
  reads_kept (i' ∷ is) x p e l k = elim (entry_cases x p e i') [
    | inl (at, at') ↦
        ap (λ r. entry_at linked.tables r k)
          (subst₂ (λ y m. arrive linked.tables y (m ∷ is) ≡ arrive linked.tables new is) at at'
            (arrive_present linked.tables t i is (ap is_present entry_new ∙ present-table_entry new)
              ∙ ap (λ f. arrive linked.tables f is) (ap frame entry_new ∙ page_frame)))
        ∙ arrive_zeros linked.tables new is k zeros
        ∙ sym (
            ap (λ r. entry_at s.tables r k)
              (subst₂ (λ y m. arrive s.tables y (m ∷ is) ≡ none) at at'
                (arrive_absent s.tables t i is absent)))
    | inr same ↦ elim (Bool-cases (is_present (s.tables x i'))) [
      | inl present ↦
          ap (λ r. entry_at linked.tables r k)
            (arrive_present linked.tables x i' is (ap is_present same ∙ present)
              ∙ ap (λ f. arrive linked.tables (frame f) is) same)
          ∙ reads_kept is (frame (s.tables x i')) (i' ∷ p) (v.links x p e (omega arith) i' present)
              (omega arith) k
          ∙ sym (ap (λ r. entry_at s.tables r k) (arrive_present s.tables x i' is present))
      | inr gone ↦
          ap (λ r. entry_at linked.tables r k)
            (arrive_absent linked.tables x i' is (ap is_present same ∙ gone))
          ∙ sym (ap (λ r. entry_at s.tables r k) (arrive_absent s.tables x i' is gone))
    ]
  ]

  links_linked :
      (x : Ptr) (p : List ℕ)
      → linked_home x ≡ some p
      → length p < 3
      → (k : ℕ) → is_present (linked.tables x k) ≡ true
      → linked_home (frame (linked.tables x k)) ≡ some (k ∷ p)
  links_linked x p e l k present = elim (Bool-cases (new == x)) [
    | inl at ↦ absurd (
        let zero_entry =
          ap is_present (sym (subst (λ y. linked.tables y k ≡ 0) ((==_iff new x).0 at) (zeros k)))
          ∙ present in
        cc)
    | inr off ↦
        let e' : home x ≡ some p =
          sym (update_other home new (some (i ∷ path)) x (==_false new x off)) ∙ e in
        elim (entry_cases x p e' k) [
          | inl (same, same') ↦
              ap linked_home (
                ap frame (subst₂ (λ y m. linked.tables y m ≡ table_entry new) same same' entry_new)
                ∙ page_frame)
              ∙ update_same home new (some (i ∷ path))
              ∙ ap₂ (λ m q. some (m ∷ q)) same' (some_injective (sym h ∙ ap home same ∙ e'))
          | inr kept ↦
              ap linked_home (ap frame kept)
              ∙ homes_kept (frame (s.tables x k)) (k ∷ p)
                  (v.links x p e' l k (sym (ap is_present kept) ∙ present))
        ]
  ]

  fresh_linked :
      (k : ℕ)
      → k < linked.pmm.total_pages
      → in_use linked.pmm k ≡ false
      → linked_home (page_at linked.pmm k) ≡ none
  fresh_linked k inside free =
      let off : (j == k) ≡ false = ground (arith, takes.marks k, free) in
      let same : page_at linked.pmm k ≡ page_at s.pmm k = ap (λ b. b + k * 4096) takes.base in
      let ne = ==_false j k off in
      ap linked_home same
      ∙ update_other home new (some (i ∷ path)) (page_at s.pmm k)
          (λ e. ne (let a = takes.address in omega arith))
      ∙ v.fresh k (rw (sym takes.total) inside) (ground (arith, takes.marks k, free, off))

  pub linked-IsVmm : IsVmm linked linked_home
  linked-IsVmm = record {
    root = homes_kept s.current_pml4 [] v.root;
    links = links_linked;
    fresh = fresh_linked;
    valid = takes.valid;
    aligned = λ k inside. rw takes.base (v.aligned k (rw (sym takes.total) inside));
    not_null = λ k inside. rw takes.base (v.not_null k (rw (sym takes.total) inside));
  }

  pub linked-Extends : Extends s home linked linked_home
  linked-Extends = record {
    same_root = refl;
    homes = homes_kept;
    links_kept = λ x p e l k present. elim (entry_cases x p e k) [
      | inl (same, same') ↦
          absurd
            (let gone = subst₂ (λ y m. is_present (s.tables y m) ≡ false) same same' absent in cc)
      | inr kept ↦ kept
    ];
    reads = reads_kept;
    used = λ k u. ground (arith, takes.marks k, u);
  }

  pub linked_present : is_present (linked.tables t i) ≡ true
  linked_present = ap is_present entry_new ∙ present-table_entry new

  pub descend-linked : descend true t i s ≡ done (some (frame (linked.tables t i))) linked
  unfolding descend store_entry
  descend-linked =
      rw
        (
          absent,
          alloc_table_lem s
              (let n = v.not_null j takes.inside in let a = takes.address in omega arith),
          entry_new,
        )
        refl
