-- ===== src/Klibc/Slab/Layout.antt =====
-- Where slab_init of slab.c puts the objects of a page, in numbers without masks.
use native.Mathlib.Nat.{div-mul-le_self}
use goshkik_os.Prelude.Memory.{Ptr}
use goshkik_os.Klibc.Slab.{align_up, first_object_offset, usable}
use goshkik_os.Klibc.Slab.FreeList.{slots}
use goshkik_os.Prelude.{
  ℕ, zero, suc, ◌+◌, ◌-◌, ◌*◌, ◌/◌, ◌^◌, ◌≤◌, ◌<◌, ◌≡◌, refl, ap, ◌∙◌, inl, inr, Bool, true, ◌&&◌,
  List, [], ◌∷◌, arith, leb, ◌==◌, leb→le, ==_iff, ==_false, Bool-cases,
}

-- behind the header of 40 bytes, the next multiple of 2 ^ shift
abbrev pub offset_for : ℕ → ℕ
offset_for shift = (40 + (2 ^ shift - 1)) / 2 ^ shift * 2 ^ shift

-- the objects of this size that a page has room for
abbrev pub objects_in : ℕ → ℕ → ℕ
objects_in shift size = (4096 - offset_for shift) / size

-- the objects lie between lo and hi, with all of their bytes
pub Within : ℕ → Ptr → Ptr → List Ptr → Type 0
Within size lo hi [] = Unit
Within size lo hi (o ∷ os) = (lo ≤ o) × (o + size ≤ hi) × Within size lo hi os

-- what the code computes for an alignment of 2 ^ shift
abbrev agrees : ℕ → Bool
agrees shift =
    (first_object_offset (2 ^ shift) == offset_for shift)
    && ((usable (2 ^ shift) == 4096 - offset_for shift)
        && (leb 40 (offset_for shift) && leb (offset_for shift) 4096))

-- the code agrees for every shift below n
Agreed : ℕ → Type 0
Agreed zero = Unit
Agreed (suc n) = (agrees n ≡ true) × Agreed n

small_shifts : Agreed 13
unfolding Agreed first_object_offset usable align_up
small_shifts = (
  refl,
  (
    refl,
    (refl, (refl, (refl, (refl, (refl, (refl, (refl, (refl, (refl, (refl, (refl, tt))))))))))),
  ),
)

one_shift : (shift n : ℕ) → Agreed n → shift < n → agrees shift ≡ true
unfolding Agreed
one_shift shift zero all less = absurd (omega arith)
one_shift shift (suc n) (last, before) less = elim (Bool-cases (shift == n)) [
  | inl e ↦ ap agrees ((==_iff shift n).0 e) ∙ last
  | inr e ↦ let ne = ==_false shift n e in one_shift shift n before (omega arith)
]

parts :
    (p q r s : Bool)
    → (p && (q && (r && s))) ≡ true
    → (p ≡ true) × (q ≡ true) × (r ≡ true) × (s ≡ true)
parts p q r s h = (ground arith, ground arith, ground arith, ground arith)

pub layout :
    (shift : ℕ)
    → shift ≤ 12
    → (first_object_offset (2 ^ shift) ≡ offset_for shift)
      × (usable (2 ^ shift) ≡ 4096 - offset_for shift)
      × (40 ≤ offset_for shift)
      × (offset_for shift ≤ 4096)
layout shift small =
    let (a, b, c, d) =
      parts (first_object_offset (2 ^ shift) == offset_for shift) _ _ _
        (one_shift shift 13 small_shifts (omega arith)) in
    ((==_iff _ _).0 a, (==_iff _ _).0 b, leb→le _ _ c, leb→le _ _ d)

slots-Within :
    (n size : ℕ) (object lo hi : Ptr) (os : List Ptr)
    → lo ≤ object
    → object + n * size ≤ hi
    → Within size lo hi os
    → Within size lo hi (slots n size object os)
unfolding slots Within
slots-Within zero size object lo hi os low high w = w
slots-Within (suc n) size object lo hi os low high w =
    let more : suc n * size ≡ size + n * size = grind arith in
    slots-Within n size (object + size) lo hi (object ∷ os) (omega arith) (omega arith)
      (low, omega arith, w)

-- every object of a new slab lies behind its header and inside of its page
pub objects-Within :
    (shift size : ℕ) (slab : Ptr)
    → shift ≤ 12
    → Within size
        (slab + 40)
        (slab + 4096)
        (slots (objects_in shift size) size (slab + offset_for shift) [])
unfolding Within
objects-Within shift size slab small =
    let (a, b, low, high) = layout shift small in
    slots-Within (objects_in shift size) size (slab + offset_for shift) (slab + 40) (slab + 4096) []
      (omega arith) (omega (arith, div-mul-le_self (4096 - offset_for shift) size)) tt

pub objects_few : (shift size : ℕ) → 0 < size → objects_in shift size < 2 ^ 32
objects_few shift size wide =
    let bound = div-mul-le_self (4096 - offset_for shift) size in
    let grows : objects_in shift size ≤ objects_in shift size * size = grind arith in omega arith
