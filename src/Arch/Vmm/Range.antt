-- ===== src/Arch/Vmm/Range.antt =====
-- The loop of init_vmm in vmm.c that maps a range of pages.
use goshkik_os.Prelude.Run.{done}
use goshkik_os.Arch.Vmm.{Vmm, frame, map_range, vmm_write}
use goshkik_os.Arch.Vmm.Tree.{resolve, Home, IsVmm}
use goshkik_os.Arch.Vmm.Free.{free_count}
use goshkik_os.Arch.Vmm.Store.{same_page}
use goshkik_os.Arch.Vmm.Laws.{vmm_map_lem}
use goshkik_os.Prelude.{
  ℕ, zero, suc, ◌+◌, ◌-◌, ◌*◌, ◌/◌, ◌%◌, ◌^◌, ◌≤◌, ◌<◌, bit_or, ◌≡◌, refl, ap, ◌∙◌, ◌≢◌, inl, inr,
  ◌&&◌, arith, ltb, leb, if◌then◌else◌, lt→ltb, leb→le, leb-false, leb-gt, leb-true, ==_iff,
  ==_false, Bool-cases,
}

-- the address that `other` gets from n pages at `virtual`, mapped to those at `physical`
abbrev pub offset_in : ℕ → ℕ → ℕ → ℕ
offset_in virtual physical other =
    bit_or (frame (physical + (other - virtual) / 4096 * 4096)) (other % 4096)

range_more :
    (n virtual physical other old : ℕ)
    → virtual % 4096 ≡ 0
    → virtual + suc n * 4096 ≤ 2 ^ 48
    → other < 2 ^ 48
    → (if leb (virtual + 4096) other && ltb other (virtual + 4096 + n * 4096)
        then offset_in (virtual + 4096) (physical + 4096) other
        else (if same_page virtual other then bit_or (frame physical) (other % 4096) else old))
      ≡ (if leb virtual other && ltb other (virtual + suc n * 4096)
          then offset_in virtual physical other
          else old)
range_more n virtual physical other old aligned fits small =
    elim (Bool-cases (same_page virtual other)) [
      | inl same ↦
          let e = (==_iff _ _).0 same in
          let at : virtual / 4096 ≡ other / 4096 = omega arith in
          rw
            (
              same,
              leb-gt (virtual + 4096) other (omega arith),
              leb-true virtual other (omega arith),
              lt→ltb other (virtual + suc n * 4096) (omega arith),
            )
            (ap (λ a. bit_or (frame a) (other % 4096)) (omega arith))
      | inr away ↦
          let ne = ==_false _ _ away in
          let off : virtual / 4096 ≢ other / 4096 = λ e. ne (ap (λ a. a % 2 ^ 36) e) in
          elim (Bool-cases (leb (virtual + 4096) other)) [
            | inl above ↦
                let a = leb→le _ _ above in
                let last : virtual + 4096 + n * 4096 ≡ virtual + suc n * 4096 = omega arith in
                rw (away, above, leb-true virtual other (omega arith), last)
                  (ap (λ c. if ltb other (virtual + suc n * 4096) then c else old)
                    (ap (λ a. bit_or (frame a) (other % 4096)) (omega arith)))
            | inr below ↦
                let b = leb-false _ _ below in
                rw (away, below, leb-gt virtual other (omega arith)) refl
          ]
    ]

-- If the tables form a tree, three pages a round are free, and the range is aligned and lies inside the
-- lower 2 ^ 48 bytes, the loop of init_vmm over n pages returns. The tables form a tree again, the
-- addresses of the range resolve to the same distance from `physical`, page by page, and all others below
-- 2 ^ 48 as before.
pub map_range_lem :
    (n virtual physical : ℕ) (s : Vmm) (home : Home)
    → IsVmm s home
    → 3 * n ≤ free_count s.pmm
    → virtual % 4096 ≡ 0
    → virtual + n * 4096 ≤ 2 ^ 48
    → physical + n * 4096 < 2 ^ 64
    → (s' : Vmm) × (home' : Home) × (map_range n virtual physical s ≡ done tt s')
      × IsVmm s' home'
      × ((other : ℕ)
          → other < 2 ^ 48
          → resolve s'.tables s'.current_pml4 other ≡ (
              if leb virtual other && ltb other (virtual + n * 4096)
              then offset_in virtual physical other
              else resolve s.tables s.current_pml4 other))
unfolding map_range
map_range_lem zero virtual physical s home v enough aligned fits fits' =
    (s, home, refl, v, λ other small. ground arith)
map_range_lem (suc n) virtual physical s home v enough aligned fits fits' =
    let (s1, home1, run, v1, left, maps) =
      vmm_map_lem virtual physical vmm_write s home v (omega arith) refl in
    let (s2, home2, run', v2, reads) =
      map_range_lem n (virtual + 4096) (physical + 4096) s1 home1 v1 (omega arith) (omega arith)
        (omega arith) (omega arith) in
    let up : (virtual + 4096) % 2 ^ 64 ≡ virtual + 4096 = omega arith in
    let up' : (physical + 4096) % 2 ^ 64 ≡ physical + 4096 = omega arith in
    (
      s2,
      home2,
      rw (run, up, up') run',
      v2,
      λ other small.
          reads other small
          ∙ ap
              (λ old.
                if leb (virtual + 4096) other && ltb other (virtual + 4096 + n * 4096)
                then offset_in (virtual + 4096) (physical + 4096) other
                else old)
              (maps.translates other)
          ∙ range_more n virtual physical other (resolve s.tables s.current_pml4 other) aligned fits
              small,
    )
