-- ===== src/Arch/Vmm/Resolve.antt =====
-- vmm_resolve of vmm.c against an account of the page tables in numbers, without masks.
use goshkik_os.Prelude.Masks.{bit_and-one, bit_and-page, bit_or-page}
use goshkik_os.Prelude.Memory.{Ptr}
use goshkik_os.Prelude.Run.{done}
use goshkik_os.Arch.Vmm.{
  Tables, Vmm, is_present, frame, upper, pt_index, resolved, walk, vmm_resolve,
}
use goshkik_os.Arch.Vmm.Tree.{arrive, entry_at, resolve, arrive_present, arrive_absent}
use goshkik_os.Arch.Vmm.Walk.{walk_from_reads}
use goshkik_os.Prelude.{
  ℕ, ◌+◌, ◌*◌, ◌/◌, ◌%◌, ◌^◌, bit_or, ◌≡◌, refl, sym, ap, ◌∙◌, inl, inr, Bool, true, false, not,
  List, [], ◌∷◌, arith, ◌==◌, if◌then◌else◌, Bool-cases, Option-cases,
}

-- the address in an entry: forty bits from bit 12 on
abbrev pub page_of : ℕ → ℕ
page_of e = e / 4096 % 2 ^ 40 * 4096

-- The entry k of the table that the indices lead to from t; 0 behind an entry that is even, that is, without
-- its lowest bit.
pub follow : Tables → Ptr → List ℕ → ℕ → ℕ
follow tables t [] k = tables t k
follow tables t (i ∷ is) k =
    let rest = follow tables (page_of (tables t i)) is k in if tables t i % 2 == 0 then 0 else rest

-- Nine bits of the address select the entry at each of the four levels, and the last twelve the byte of
-- the page. 0 where an entry is not there.
abbrev pub translate : Tables → Ptr → ℕ → ℕ
translate tables root virtual =
    let e =
      follow tables root
        (virtual / 2 ^ 39 % 512 ∷ virtual / 2 ^ 30 % 512 ∷ virtual / 2 ^ 21 % 512 ∷ [])
        (virtual / 2 ^ 12 % 512) in
    if e % 2 == 0 then 0 else page_of e + virtual % 4096

frame-page_of : (e : ℕ) → frame e ≡ page_of e
frame-page_of = bit_and-page

is_present-odd : (e : ℕ) → is_present e ≡ not (e % 2 == 0)
is_present-odd e = ap (λ m. not (m == 0)) (bit_and-one e)

if_negated : (b : Bool) → not b ≡ true → b ≡ false
if_negated b e = ground arith

unless_negated : (b : Bool) → not b ≡ false → b ≡ true
unless_negated b e = ground arith

odd : (e : ℕ) → is_present e ≡ true → (e % 2 == 0) ≡ false
odd e h = if_negated (e % 2 == 0) (sym (is_present-odd e) ∙ h)

even : (e : ℕ) → is_present e ≡ false → (e % 2 == 0) ≡ true
even e h = unless_negated (e % 2 == 0) (sym (is_present-odd e) ∙ h)

arrive-follow :
    (tables : Tables) (js : List ℕ) (t : Ptr) (k : ℕ)
    → entry_at tables (arrive tables t js) k ≡ follow tables t js k
unfolding arrive follow
arrive-follow tables [] t k = refl
arrive-follow tables (i ∷ is) t k = elim (Bool-cases (is_present (tables t i))) [
  | inl present ↦
      ap (λ r. entry_at tables r k) (arrive_present tables t i is present)
      ∙ arrive-follow tables is (frame (tables t i)) k
      ∙ ap (λ p. follow tables p is k) (frame-page_of (tables t i))
      ∙ rw (odd (tables t i) present) refl
  | inr absent ↦
      ap (λ r. entry_at tables r k) (arrive_absent tables t i is absent)
      ∙ rw (even (tables t i) absent) refl
]

resolved_lem :
    (virtual e : ℕ) → resolved virtual e ≡ (if e % 2 == 0 then 0 else page_of e + virtual % 4096)
resolved_lem virtual e = elim (Bool-cases (is_present e)) [
  | inl present ↦
      rw (present, odd e present)
        (ap (λ m. bit_or m (virtual % 4096)) (frame-page_of e)
          ∙ bit_or-page (e / 4096 % 2 ^ 40) (virtual % 4096) (omega arith))
  | inr absent ↦ rw (absent, even e absent) refl
]

resolve-translate :
    (tables : Tables) (root : Ptr) (virtual : ℕ)
    → resolve tables root virtual ≡ translate tables root virtual
unfolding resolve
resolve-translate tables root virtual =
    ap (resolved virtual) (arrive-follow tables (upper virtual) root (pt_index virtual))
    ∙ resolved_lem virtual (follow tables root (upper virtual) (pt_index virtual))

reads_resolve :
    (virtual : ℕ) (s : Vmm)
    → vmm_resolve virtual s ≡ done (resolve s.tables s.current_pml4 virtual) s
unfolding vmm_resolve walk resolve
reads_resolve virtual s =
    rw (walk_from_reads (upper virtual) s.current_pml4 s)
      (elim (Option-cases (arrive s.tables s.current_pml4 (upper virtual))) [
        | inl missing ↦ rw missing refl
        | inr (t, there) ↦ rw there refl
      ])

-- vmm_resolve always returns and changes nothing. Its result is 0 where one of the four entries on the
-- way is even, and otherwise the forty address bits of the last entry with the lowest twelve bits of the
-- virtual address behind them; four times nine bits of that address select the entries.
pub vmm_resolve_lem :
    (virtual : ℕ) (s : Vmm)
    → vmm_resolve virtual s ≡ done (translate s.tables s.current_pml4 virtual) s
vmm_resolve_lem virtual s =
    reads_resolve virtual s ∙ ap (λ r. done r s) (resolve-translate s.tables s.current_pml4 virtual)
