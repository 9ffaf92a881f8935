-- ===== src/Arch/Mmu/Laws.antt =====
-- What memmap_find_biggest_region of mmu.c finds.
use goshkik_os.Prelude.{
  ◌≤◌, ◌≡◌, refl, ◌≢◌, ◌⊎◌, inl, inr, Option, none, some, List, [], ◌∷◌, arith, ltb, ◌==◌, ltb→lt,
  ltb-false, ==_iff, ==_false, Bool-cases,
}
use goshkik_os.Arch.Mmu.{MemmapEntry, usable, keep_bigger, find_biggest, memmap_find_biggest_region}

-- membership by recursion
abbrev pub In : MemmapEntry → List MemmapEntry → Type 0
In e [] = ⊥
In e (x ∷ xs) = (x ≡ e) ⊎ In e xs

-- `r` is usable, and no usable region of the map is longer; with no usable region, `none`
abbrev pub IsBiggest : List MemmapEntry → Option MemmapEntry → Type 0
IsBiggest memmap none = (e : MemmapEntry) → In e memmap → e.type ≢ usable
IsBiggest memmap (some r) =
    In r memmap
    × (r.type ≡ usable)
    × ((e : MemmapEntry) → In e memmap → e.type ≡ usable → e.length ≤ r.length)

-- the regions of the first list, moved one by one in front of the second
shift : List MemmapEntry → List MemmapEntry → List MemmapEntry
shift [] seen = seen
shift (x ∷ xs) seen = shift xs (x ∷ seen)

shift-In :
    (e : MemmapEntry) (xs seen : List MemmapEntry) → In e xs ⊎ In e seen → In e (shift xs seen)
unfolding shift
shift-In e [] seen (inr i) = i
shift-In e [] seen (inl i) = absurd i
shift-In e (x ∷ xs) seen (inl (inl q)) = shift-In e xs (x ∷ seen) (inr (inl q))
shift-In e (x ∷ xs) seen (inl (inr i)) = shift-In e xs (x ∷ seen) (inl i)
shift-In e (x ∷ xs) seen (inr i) = shift-In e xs (x ∷ seen) (inr (inr i))

In-shift :
    (e : MemmapEntry) (xs seen : List MemmapEntry) → In e (shift xs seen) → In e xs ⊎ In e seen
unfolding shift
In-shift e [] seen i = inr i
In-shift e (x ∷ xs) seen i = elim (In-shift e xs (x ∷ seen) i) [
  | inl j ↦ inl (inr j)
  | inr j ↦ elim j [ inl q ↦ inl (inl q) | inr k ↦ inr k ]
]

-- one round of the loop
step-IsBiggest :
    (x : MemmapEntry) (b : Option MemmapEntry) (seen : List MemmapEntry)
    → IsBiggest seen b
    → IsBiggest (x ∷ seen) (keep_bigger b x)
unfolding keep_bigger
step-IsBiggest x none seen h = elim (Bool-cases (x.type == usable)) [
  | inl u ↦ rw u (
    inl refl,
    (==_iff _ _).0 u,
    λ e i t. elim i [ inl q ↦ rw q (omega arith) | inr j ↦ absurd (h e j t) ],
  )
  | inr n ↦ rw n (λ e i t. elim i [ inl q ↦ ==_false _ _ n (rw q t) | inr j ↦ h e j t ])
]
step-IsBiggest x (some r) seen h = elim (Bool-cases (x.type == usable)) [
  | inl u ↦ rw u (elim (Bool-cases (ltb r.length x.length)) [
    | inl lt ↦ rw lt (
      inl refl,
      (==_iff _ _).0 u,
      λ e i t. elim i [
        | inl q ↦ rw q (omega arith)
        | inr j ↦ let le = h.2 e j t in let l = ltb→lt _ _ lt in omega arith
      ],
    )
    | inr ge ↦
        rw ge (
          inr h.0,
          h.1,
          λ e i t. elim i [ inl q ↦ rw (← q) (ltb-false _ _ ge) | inr j ↦ h.2 e j t ],
        )
  ])
  | inr n ↦ rw n (
    inr h.0,
    h.1,
    λ e i t. elim i [ inl q ↦ absurd (==_false _ _ n (rw q t)) | inr j ↦ h.2 e j t ],
  )
]

find_biggest-IsBiggest :
    (xs seen : List MemmapEntry) (b : Option MemmapEntry)
    → IsBiggest seen b
    → IsBiggest (shift xs seen) (find_biggest b xs)
unfolding find_biggest shift
find_biggest-IsBiggest [] seen b h = h
find_biggest-IsBiggest (x ∷ xs) seen b h =
    find_biggest-IsBiggest xs (x ∷ seen) (keep_bigger b x) (step-IsBiggest x b seen h)

IsBiggest-same :
    (xs ys : List MemmapEntry) (r : Option MemmapEntry)
    → ((e : MemmapEntry) → In e xs → In e ys)
    → ((e : MemmapEntry) → In e ys → In e xs)
    → IsBiggest xs r
    → IsBiggest ys r
IsBiggest-same xs ys none to from h = λ e i. h e (from e i)
IsBiggest-same xs ys (some r) to from h = (to r h.0, h.1, λ e i. h.2 e (from e i))

-- memmap_find_biggest_region returns a usable region of the map such that no usable region is
-- longer, and NULL exactly if no region is usable.
pub memmap_find_biggest_region-IsBiggest :
    (memmap : List MemmapEntry) → IsBiggest memmap (memmap_find_biggest_region memmap)
unfolding memmap_find_biggest_region
memmap_find_biggest_region-IsBiggest memmap =
    IsBiggest-same (shift memmap []) memmap _
      (λ e i. elim (In-shift e memmap [] i) [ inl j ↦ j | inr j ↦ absurd j ])
      (λ e i. shift-In e memmap [] (inl i))
      (find_biggest-IsBiggest memmap [] none (λ e i. absurd i))
