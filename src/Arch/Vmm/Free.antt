-- ===== src/Arch/Vmm/Free.antt =====
-- The pages that pmm.c has left for tables, and alloc_table on a state that has some.
use goshkik_os.Prelude.Memory.{update}
use goshkik_os.Prelude.Run.{done}
use goshkik_os.Arch.Pmm.{Pmm, pmm_alloc_page}
use goshkik_os.Arch.Pmm.Laws.{IsPmm, in_use, Takes, pmm_alloc_page_lem}
use goshkik_os.Arch.Vmm.{Vmm, alloc_table}
use goshkik_os.Arch.Vmm.Tree.{Home, IsVmm}
use goshkik_os.Prelude.{
  ℕ, zero, suc, ◌+◌, ◌*◌, ◌<◌, ◌≡◌, refl, sym, ap, ◌∙◌, inl, inr, true, arith, ltb, ◌==◌,
  if◌then◌else◌, ltb→lt, lt→ltb, le→ltb, ltb-false, ==_iff, ne→==, ==_false, Bool-cases,
}

-- the free pages among the first n
unfoldable pub free_below : Pmm → ℕ → ℕ
free_below s zero = 0
free_below s (suc n) = (if in_use s n then 0 else 1) + free_below s n

unfoldable pub free_count : Pmm → ℕ
unfolding free_below
free_count s = free_below s s.total_pages

free_below-Exhausted :
    (s : Pmm) (n : ℕ) → ((j : ℕ) → j < n → in_use s j ≡ true) → free_below s n ≡ 0
unfolding free_below
free_below-Exhausted s zero full = refl
free_below-Exhausted s (suc n) full =
    rw (full n (omega arith))
      (let r = free_below-Exhausted s n (λ j h. full j (omega arith)) in omega arith)

free_below-Takes :
    (s : Pmm) (i : ℕ) (out : ℕ × Pmm)
    → Takes s i out
    → (n : ℕ) → free_below out.1 n + (if ltb i n then 1 else 0) ≡ free_below s n
unfolding free_below
free_below-Takes s i out t zero = rw (le→ltb i 0 (omega arith)) refl
free_below-Takes s i out t (suc n) =
    let rest = free_below-Takes s i out t n in
    let mark = t.marks n in
    let free = t.free in
    elim (Bool-cases (i == n)) [
      | inl same ↦
          let e = (==_iff i n).0 same in
          rw (mark, same, ap (in_use s) (sym e) ∙ free, lt→ltb i (suc n) (omega arith))
            (let gone = le→ltb i n (omega arith) in let r = rw gone at rest in omega arith)
      | inr other ↦
          let ne = ==_false i n other in
          rw (mark, other)
            (elim (Bool-cases (ltb i n)) [
              | inl below ↦
                  let b = ltb→lt i n below in
                  rw (lt→ltb i (suc n) (omega arith)) (let r = rw below at rest in omega arith)
              | inr above ↦
                  let a = ltb-false i n above in
                  rw (le→ltb i (suc n) (omega arith)) (let r = rw above at rest in omega arith)
            ])
    ]

-- Where pages are free, pmm_alloc_page takes one, and one less is free.
pub free_count-pmm_alloc_page :
    (s : Pmm)
    → IsPmm s
    → 0 < free_count s
    → (i : ℕ) × Takes s i (pmm_alloc_page s)
      × (suc (free_count (pmm_alloc_page s).1) ≡ free_count s)
unfolding free_count
free_count-pmm_alloc_page s v some_free = elim (pmm_alloc_page_lem s v) [
  | inl out ↦ absurd (let z = free_below-Exhausted s s.total_pages out.full in omega arith)
  | inr (i, t) ↦
      let one = free_below-Takes s i (pmm_alloc_page s) t s.total_pages in
      (i, t, rw t.total (let r = rw (lt→ltb i s.total_pages t.inside) at one in omega arith))
]

-- alloc_table then returns the page, filled with zeros.
pub alloc_table_lem :
    (s : Vmm)
    → 0 < (pmm_alloc_page s.pmm).0
    → alloc_table s
      ≡ done (pmm_alloc_page s.pmm).0 (record s {
        tables = update s.tables (pmm_alloc_page s.pmm).0 (λ _. 0);
        pmm = (pmm_alloc_page s.pmm).1;
      })
unfolding alloc_table
alloc_table_lem s positive = rw (ne→== (pmm_alloc_page s.pmm).0 0 (λ e. absurd (omega arith))) refl

-- A page that is taken leaves the tables a tree.
pub took-IsVmm :
    (s : Vmm) (home : Home) (i : ℕ)
    → IsVmm s home
    → Takes s.pmm i (pmm_alloc_page s.pmm)
    → IsVmm (record s { pmm = (pmm_alloc_page s.pmm).1 }) home
took-IsVmm s home i v takes = record {
  root = v.root;
  links = v.links;
  fresh = λ k inside free.
      ap home (ap (λ b. b + k * 4096) takes.base)
      ∙ v.fresh k (rw (sym takes.total) inside) (ground (arith, takes.marks k, free));
  valid = takes.valid;
  aligned = λ k inside. rw takes.base (v.aligned k (rw (sym takes.total) inside));
  not_null = λ k inside. rw takes.base (v.not_null k (rw (sym takes.total) inside));
}
