-- ===== src/Klibc/Mem/Laws.antt =====
-- What the functions of mem.c leave in memory, byte by byte.
use goshkik_os.Prelude.Memory.{Ptr, Memory, write}
use goshkik_os.Prelude.Int.{ℤ, pos, negsuc}
use goshkik_os.Klibc.Mem.{
  copy_up, copy_down, memcpy, mempcpy, fill, memset, memmove, compare_from, memcmp,
}
use goshkik_os.Prelude.{
  ℕ, zero, suc, ◌+◌, ◌-◌, ◌%◌, ◌≤◌, ◌<◌, ◌≡◌, refl, ap, fun_ext, ◌⊎◌, inl, inr, ◌&&◌, arith, ltb,
  leb, ◌==◌, if◌then◌else◌, ltb→lt, ltb-false, ==_iff, ==_false, Bool-cases,
}

-- the n bytes at src, copied to dest; every other byte as it was
abbrev pub copied : ℕ → Ptr → Ptr → Memory → Memory
copied n dest src m a = if leb dest a && ltb a (dest + n) then m (src + (a - dest)) else m a

-- the n bytes at p set to the byte c; every other byte as it was
abbrev pub filled : ℕ → Ptr → ℕ → Memory → Memory
filled n p c m a = if leb p a && ltb a (p + n) then c % 256 else m a

pub copy_up_lem :
    (n i : ℕ) (dest src : Ptr) (m : Memory) (a : Ptr)
    → (dest ≤ src) ⊎ (src + n ≤ dest)
    → copy_up n i dest src m a
      ≡ (if leb (dest + i) a && ltb a (dest + i + n) then m (src + (a - dest)) else m a)
unfolding copy_up
copy_up_lem zero i dest src m a apart = ground arith
copy_up_lem (suc n) i dest src m a apart =
    ground (arith, copy_up_lem n (i + 1) dest src (write m (dest + i) (m (src + i))) a)

pub copy_down_lem :
    (n : ℕ) (dest src : Ptr) (m : Memory) (a : Ptr)
    → src ≤ dest
    → copy_down n dest src m a ≡ copied n dest src m a
unfolding copy_down
copy_down_lem zero dest src m a le = ground arith
copy_down_lem (suc n) dest src m a le =
    ground (arith, copy_down_lem n dest src (write m (dest + n) (m (src + n))) a)

fill_lem :
    (n i : ℕ) (p : Ptr) (c : ℕ) (m : Memory) (a : Ptr)
    → fill n i p c m a ≡ (if leb (p + i) a && ltb a (p + i + n) then c % 256 else m a)
unfolding fill
fill_lem zero i p c m a = ground arith
fill_lem (suc n) i p c m a = ground (arith, fill_lem n (i + 1) p c (write m (p + i) (c % 256)) a)

-- memcpy returns dest and copies the n bytes at src to dest, changing no other byte, if the regions do
-- not overlap.
pub memcpy_lem :
    (dest src : Ptr) (n : ℕ) (m : Memory)
    → (dest + n ≤ src) ⊎ (src + n ≤ dest)
    → memcpy dest src n m ≡ (dest, copied n dest src m)
unfolding memcpy
memcpy_lem dest src n m apart =
    ap (λ m'. (dest, m')) (fun_ext λ a. ground (arith, copy_up_lem n 0 dest src m a (before apart)))
  where
    before : (dest + n ≤ src) ⊎ (src + n ≤ dest) → (dest ≤ src) ⊎ (src + n ≤ dest)
    before (inl h) = inl (omega arith)
    before (inr h) = inr h

-- memmove does the same for any two regions, overlapping or not: every byte of the destination is
-- the byte that the source held before the call.
pub memmove_lem :
    (dest src : Ptr) (n : ℕ) (m : Memory) → memmove dest src n m ≡ (dest, copied n dest src m)
unfolding memmove
memmove_lem dest src n m = elim (Bool-cases (ltb dest src)) [
  | inl up ↦ rw up (
      ap (λ m'. (dest, m'))
        (fun_ext λ a. ground (arith, copy_up_lem n 0 dest src m a (inl (lt_le (ltb→lt _ _ up))))))
  | inr not_up ↦ rw not_up (elim (Bool-cases (ltb src dest)) [
    | inl down ↦ rw down (
        ap (λ m'. (dest, m')) (fun_ext λ a. copy_down_lem n dest src m a (lt_le (ltb→lt _ _ down))))
    | inr neither ↦ rw neither (
        let same : src ≡ dest = antisymm (ltb-false _ _ not_up) (ltb-false _ _ neither) in
        ap (λ m'. (dest, m')) (fun_ext λ a. ground (arith, copied_self n dest m a, same)))
  ])
]
  where
    lt_le : {a b : ℕ} → a < b → a ≤ b
    lt_le h = omega arith

    antisymm : {a b : ℕ} → a ≤ b → b ≤ a → a ≡ b
    antisymm h k = omega arith

    copied_self : (n : ℕ) (d : Ptr) (m : Memory) (a : Ptr) → copied n d d m a ≡ m a
    copied_self n d m a = ground arith

-- mempcpy copies like memcpy and returns the end of the copy.
pub mempcpy_lem :
    (dest src : Ptr) (n : ℕ) (m : Memory)
    → (dest + n ≤ src) ⊎ (src + n ≤ dest)
    → mempcpy dest src n m ≡ (dest + n, copied n dest src m)
unfolding mempcpy
mempcpy_lem dest src n m apart =
    ap (λ (r : Ptr × Memory). (r.0 + n, r.1)) (memcpy_lem dest src n m apart)

-- memset sets the n bytes at s to the low byte of c, changes no other byte, and returns s.
pub memset_lem : (s : Ptr) (c n : ℕ) (m : Memory) → memset s c n m ≡ (s, filled n s c m)
unfolding memset
memset_lem s c n m = ap (λ m'. (s, m')) (fun_ext λ a. ground (arith, fill_lem n 0 s c m a))

-- the first i bytes of two regions agree
abbrev pub AgreeBelow : ℕ → Ptr → Ptr → Memory → Type 0
AgreeBelow n s1 s2 m = (i : ℕ) → i < n → m (s1 + i) ≡ m (s2 + i)

-- What an order of two regions of n bytes says: all bytes agree, or the first byte that differs is
-- smaller in the one that is less.
abbrev pub Ordered : ℕ → Ptr → Ptr → Memory → ℤ → Type 0
Ordered n s1 s2 m r =
    ((r ≡ pos 0) × AgreeBelow n s1 s2 m)
    ⊎ ((k : ℕ) × (k < n)
        × AgreeBelow k s1 s2 m
        × (((r ≡ negsuc 0) × (m (s1 + k) < m (s2 + k)))
            ⊎ ((r ≡ pos 1) × (m (s2 + k) < m (s1 + k)))))

extend :
    (i : ℕ) (s1 s2 : Ptr) (m : Memory)
    → AgreeBelow i s1 s2 m
    → m (s1 + i) ≡ m (s2 + i)
    → AgreeBelow (i + 1) s1 s2 m
extend i s1 s2 m agree same j h = elim (Bool-cases (j == i)) [
  | inl e ↦ rw ((==_iff j i).0 e) same
  | inr ne ↦ agree j (let d = ==_false j i ne in omega arith)
]

compare_from_lem :
    (n i total : ℕ) (s1 s2 : Ptr) (m : Memory)
    → i + n ≡ total
    → AgreeBelow i s1 s2 m
    → Ordered total s1 s2 m (compare_from n i s1 s2 m)
unfolding compare_from
compare_from_lem zero i total s1 s2 m e agree = inl (refl, λ j h. agree j (omega arith))
compare_from_lem (suc n) i total s1 s2 m e agree = elim (Bool-cases (m (s1 + i) == m (s2 + i))) [
  | inl same ↦ rw same (
      compare_from_lem n (i + 1) total s1 s2 m (omega arith)
        (extend i s1 s2 m agree ((==_iff _ _).0 same)))
  | inr differ ↦ rw differ (
      inr (
        i,
        omega arith,
        agree,
        elim (Bool-cases (ltb (m (s1 + i)) (m (s2 + i)))) [
          | inl lt ↦ rw lt (inl (refl, ltb→lt _ _ lt))
          | inr ge ↦
              rw ge (
                inr (refl, let ne = ==_false _ _ differ in let l = ltb-false _ _ ge in omega arith))
        ],
      ))
]

-- memcmp orders the two regions: it returns 0 exactly when all n bytes agree, and otherwise -1 or 1
-- as the first region is smaller or larger at the first byte at which they differ.
pub memcmp-Ordered : (s1 s2 : Ptr) (n : ℕ) (m : Memory) → Ordered n s1 s2 m (memcmp s1 s2 n m)
unfolding memcmp
memcmp-Ordered s1 s2 n m = compare_from_lem n 0 n s1 s2 m (omega arith) (λ i h. elim h [ ])
