-- ===== src/Klibc/Heap/Blocks.antt =====
-- The blocks of the heap as a list: they follow one another in memory without a gap.
use goshkik_os.Prelude.Memory.{Ptr}
use goshkik_os.Klibc.Heap.{Header}
use goshkik_os.Prelude.{
  ℕ, ◌+◌, ◌≤◌, ◌<◌, ◌≡◌, refl, ap, ◌∙◌, subst, inl, inr, Bool, Option, some, List, [], ◌∷◌, ◌++◌,
  arith, if◌then◌else◌, Bool-cases,
}

-- a block: its size and whether it is free
pub record Block : Type 0 where
  pub size : ℕ
  pub free : Bool

abbrev pub Headers : Type 0
Headers = Ptr → Option Header

-- the address of the first of these blocks, NULL if there is none
abbrev pub link : List Block → ℕ → Ptr
link [] a = 0
link (b ∷ bs) a = a

abbrev pub after : ℕ → Block → ℕ
after a b = a + 24 + b.size

-- from `a` to `e` the headers are those of the blocks, each linked to the next
abbrev pub Tiles : Headers → ℕ → List Block → ℕ → Type 0
Tiles hd a [] e = a ≡ e
Tiles hd a (b ∷ bs) e =
    (0 < a)
    × (hd a ≡ some (record { size = b.size; free = b.free; next = link bs (after a b) }))
    × Tiles hd (after a b) bs e

-- the bytes that blocks take, headers included
abbrev pub span : List Block → ℕ
span [] = 0
span (b ∷ bs) = 24 + b.size + span bs

-- the blocks in use, by the address of their header and their size
abbrev pub used : ℕ → List Block → List (ℕ × ℕ)
used a [] = []
used a (b ∷ bs) = let rest = used (after a b) bs in if b.free then rest else (a, b.size) ∷ rest

pub Tiles-le : (hd : Headers) (a : ℕ) (bs : List Block) (e : ℕ) → Tiles hd a bs e → a + span bs ≡ e
Tiles-le hd a [] e t = omega arith
Tiles-le hd a (b ∷ bs) e (p, h, t) = omega (arith, Tiles-le hd (after a b) bs e t)

pub used-append :
    (a : ℕ) (xs ys : List Block) → used a (xs ++ ys) ≡ used a xs ++ used (a + span xs) ys
used-append a [] ys = ap (λ n. used n ys) (omega arith)
used-append a (x ∷ xs) ys =
    let e : after a x + span xs ≡ a + span (x ∷ xs) = omega arith in
    let ih = used-append (after a x) xs ys ∙ ap (λ n. used (after a x) xs ++ used n ys) e in
    elim (Bool-cases x.free) [ inl f ↦ rw f ih | inr f ↦ rw f (ap (◌∷◌ (a, x.size)) ih) ]

-- the header that stands at a block of the list
pub Tiles-at :
    (hd : Headers) (a : ℕ) (xs : List Block) (b : Block) (ys : List Block) (e : ℕ)
    → Tiles hd a (xs ++ b ∷ ys) e
    → Tiles hd (a + span xs) (b ∷ ys) e
Tiles-at hd a [] b ys e t = subst (λ n. Tiles hd n (b ∷ ys) e) {x = a} (omega arith) t
Tiles-at hd a (x ∷ xs) b ys e (p, h, t) =
    subst (λ n. Tiles hd n (b ∷ ys) e) {x = after a x + span xs} (omega arith)
      (Tiles-at hd (after a x) xs b ys e t)

-- headers below an address are the same
abbrev pub SameBelow : ℕ → Headers → Headers → Type 0
SameBelow p hd hd' = (x : ℕ) → x < p → hd' x ≡ hd x

link-cons :
    (xs : List Block) (b c : Block) (ys zs : List Block) (a : ℕ)
    → link (xs ++ b ∷ ys) a ≡ link (xs ++ c ∷ zs) a
link-cons [] b c ys zs a = refl
link-cons (x ∷ xs) b c ys zs a = refl

-- the blocks from one of them on are replaced by others, which fill the same place
pub Tiles-replace :
    (hd hd' : Headers) (a : ℕ) (xs : List Block) (b : Block) (ys : List Block) (c : Block)
    (zs : List Block) (e e' : ℕ)
    → Tiles hd a (xs ++ b ∷ ys) e
    → SameBelow (a + span xs) hd hd'
    → Tiles hd' (a + span xs) (c ∷ zs) e'
    → Tiles hd' a (xs ++ c ∷ zs) e'
Tiles-replace hd hd' a [] b ys c zs e e' t same new =
    subst (λ n. Tiles hd' n (c ∷ zs) e') {x = a + 0} (omega arith) new
Tiles-replace hd hd' a (x ∷ xs) b ys c zs e e' (p, h, t) same new = (
  p,
  same a (omega arith)
      ∙ h
      ∙ ap (λ n. some (record { size = x.size; free = x.free; next = n }))
          (link-cons xs b c ys zs (after a x)),
  Tiles-replace hd hd' (after a x) xs b ys c zs e e' t (λ y l. same y (omega arith))
      (subst (λ n. Tiles hd' n (c ∷ zs) e') {x = a + span (x ∷ xs)} (omega arith) new),
)

-- headers from an address on are the same
abbrev pub SameFrom : ℕ → Headers → Headers → Type 0
SameFrom p hd hd' = (x : ℕ) → p ≤ x → hd' x ≡ hd x

pub Tiles-SameFrom :
    (hd hd' : Headers) (a : ℕ) (bs : List Block) (e : ℕ)
    → SameFrom a hd hd'
    → Tiles hd a bs e
    → Tiles hd' a bs e
Tiles-SameFrom hd hd' a [] e same t = t
Tiles-SameFrom hd hd' a (b ∷ bs) e same (p, h, t) = (
  p,
  same a (omega arith) ∙ h,
  Tiles-SameFrom hd hd' (after a b) bs e (λ x l. same x (omega arith)) t,
)

-- every range of these, header included, ends before the next begins
abbrev pub Apart : ℕ → List (ℕ × ℕ) → Type 0
Apart lo [] = Unit
Apart lo ((x, s) ∷ rs) = (lo ≤ x) × Apart (x + 24 + s) rs

Apart-le : (lo lo' : ℕ) (rs : List (ℕ × ℕ)) → lo ≤ lo' → Apart lo' rs → Apart lo rs
Apart-le lo lo' [] l p = tt
Apart-le lo lo' ((x, s) ∷ rs) l p = (omega arith, p.1)

pub used-Apart : (a : ℕ) (bs : List Block) → Apart a (used a bs)
used-Apart a [] = tt
used-Apart a (b ∷ bs) = elim (Bool-cases b.free) [
  | inl y ↦
      rw y (Apart-le a (after a b) (used (after a b) bs) (omega arith) (used-Apart (after a b) bs))
  | inr n ↦ rw n (omega arith, used-Apart (after a b) bs)
]
