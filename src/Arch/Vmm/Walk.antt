-- ===== src/Arch/Vmm/Walk.antt =====
-- walk of vmm.c: with create set it reaches a last table, and without it reads where the path leads.
use goshkik_os.Prelude.Memory.{Ptr}
use goshkik_os.Prelude.Run.{done}
use goshkik_os.Arch.Vmm.{Vmm, is_present, frame, descend, walk_from}
use goshkik_os.Arch.Vmm.Tree.{arrive, Home, IsVmm, arrive_present}
use goshkik_os.Arch.Vmm.Free.{free_count, free_count-pmm_alloc_page}
use goshkik_os.Arch.Vmm.Link.{
  Extends, Extends-refl, Extends-trans, linked, linked_home, linked-IsVmm, linked-Extends,
  linked_present, descend-linked,
}
use goshkik_os.Prelude.{
  ℕ, suc, ◌+◌, ◌≤◌, ◌<◌, ◌≡◌, refl, ap, ◌∙◌, inl, inr, true, false, some, List, [], ◌∷◌, arith,
  Bool-cases, length,
}

-- one level down: the entry is there afterwards, and at most one page was taken
record Down (s : Vmm) (home : Home) (t : Ptr) (i : ℕ) : Type 0 where
  after : Vmm
  home_after : Home
  descends : descend true t i s ≡ done (some (frame (after.tables t i))) after
  present : is_present (after.tables t i) ≡ true
  valid : IsVmm after home_after
  extends : Extends s home after home_after
  left : free_count s.pmm ≤ suc (free_count after.pmm)

descend-Down :
    (s : Vmm) (home : Home) (t : Ptr) (path : List ℕ) (i : ℕ)
    → IsVmm s home
    → home t ≡ some path
    → length path < 3
    → 0 < free_count s.pmm
    → Down s home t i
unfolding descend
descend-Down s home t path i v h shallow some_free = elim (Bool-cases (is_present (s.tables t i))) [
  | inl present ↦ record {
    after = s;
    home_after = home;
    descends = rw present refl;
    present = present;
    valid = v;
    extends = Extends-refl s home;
    left = omega arith;
  }
  | inr absent ↦
      let (j, takes, one) = free_count-pmm_alloc_page s.pmm v.valid some_free in
      record {
        after = linked s home v t path h shallow i absent j takes;
        home_after = linked_home s home v t path h shallow i absent j takes;
        descends = descend-linked s home v t path h shallow i absent j takes;
        present = linked_present s home v t path h shallow i absent j takes;
        valid = linked-IsVmm s home v t path h shallow i absent j takes;
        extends = linked-Extends s home v t path h shallow i absent j takes;
        left = omega arith;
      }
]

-- a walk that ends at a last table, over tables of which at most one a level is new
pub record Walked (s : Vmm) (home : Home) (t : Ptr) (is : List ℕ) : Type 0 where
  pub leaf : Ptr
  pub after : Vmm
  pub home_after : Home
  pub walks : walk_from true t is s ≡ done (some leaf) after
  pub arrives : arrive after.tables t is ≡ some leaf
  pub valid : IsVmm after home_after
  pub extends : Extends s home after home_after
  pub left : free_count s.pmm ≤ length is + free_count after.pmm

pub walk_from-Walked :
    (is : List ℕ) (s : Vmm) (home : Home) (t : Ptr) (path : List ℕ)
    → IsVmm s home
    → home t ≡ some path
    → length path + length is ≡ 3
    → length is ≤ free_count s.pmm
    → Walked s home t is
unfolding arrive walk_from
walk_from-Walked [] s home t path v h full enough = record {
  leaf = t;
  after = s;
  home_after = home;
  walks = refl;
  arrives = refl;
  valid = v;
  extends = Extends-refl s home;
  left = omega arith;
}
walk_from-Walked (i ∷ is) s home t path v h full enough =
    let down = descend-Down s home t path i v h (omega arith) (omega arith) in
    let low = down.left in
    let home1 = down.extends.homes t path h in
    let next = frame (down.after.tables t i) in
    let rest =
      walk_from-Walked is down.after down.home_after next (i ∷ path) down.valid
        (down.valid.links t path home1 (omega arith) i down.present) (omega arith) (omega arith) in
    let kept = rest.extends.links_kept t path home1 (omega arith) i down.present in
    let low' = rest.left in
    record {
      leaf = rest.leaf;
      after = rest.after;
      home_after = rest.home_after;
      walks = rw down.descends rest.walks;
      arrives =
          arrive_present rest.after.tables t i is (ap is_present kept ∙ down.present)
          ∙ ap (λ e. arrive rest.after.tables (frame e) is) kept
          ∙ rest.arrives;
      valid = rest.valid;
      extends =
          Extends-trans s down.after rest.after home down.home_after rest.home_after down.extends
            rest.extends;
      left = omega arith;
    }

-- Without create, walk changes nothing and ends where the path does.
pub walk_from_reads :
    (is : List ℕ) (t : Ptr) (s : Vmm) → walk_from false t is s ≡ done (arrive s.tables t is) s
unfolding walk_from descend arrive
walk_from_reads [] t s = refl
walk_from_reads (i ∷ is) t s = elim (Bool-cases (is_present (s.tables t i))) [
  | inl present ↦ rw present (walk_from_reads is (frame (s.tables t i)) s)
  | inr absent ↦ rw absent refl
]
