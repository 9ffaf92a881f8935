-- ===== src/Klibc/Str/Search.antt =====
-- strchr and strrchr of string.c find the first and the last occurrence of a byte.
use goshkik_os.Prelude.Memory.{Ptr, Memory}
use goshkik_os.Klibc.Str.{strchr, strrchr_from, strrchr}
use goshkik_os.Klibc.Str.Lengths.{IsString, tail-IsString, head-IsString, end-IsString}
use goshkik_os.Prelude.{
  ℕ, zero, suc, ◌+◌, ◌-◌, ◌%◌, ◌<◌, ◌≡◌, refl, subst, ◌≢◌, ◌⊎◌, inl, inr, some, arith, ◌==◌,
  if◌then◌else◌, ==_iff, ne→==, ==_false, Bool-cases,
}

-- none of the first n bytes at s is c
abbrev pub Lacks : ℕ → Ptr → ℕ → Memory → Type 0
Lacks n s c m = (i : ℕ) → i < n → m (s + i) ≢ c

-- r is the first place among n bytes with the byte c, or NULL if there is none
abbrev pub FirstOf : ℕ → Ptr → ℕ → Memory → Ptr → Type 0
FirstOf n s c m r =
    ((r ≡ 0) × Lacks n s c m) ⊎ ((j : ℕ) × (j < n) × (m (s + j) ≡ c) × Lacks j s c m × (r ≡ s + j))

-- r is the last such place, or `last` if there is none
abbrev pub LastOf : ℕ → Ptr → ℕ → Memory → Ptr → Ptr → Type 0
LastOf n s c m last r =
    ((r ≡ last) × Lacks n s c m)
    ⊎ ((j : ℕ) × (j < n)
        × (m (s + j) ≡ c)
        × ((i : ℕ) → j < i → i < n → m (s + i) ≢ c)
        × (r ≡ s + j))

Lacks-cons :
    (n : ℕ) (s : Ptr) (c : ℕ) (m : Memory) → m s ≢ c → Lacks n (s + 1) c m → Lacks (suc n) s c m
Lacks-cons n s c m ne rest zero h = subst (λ a. m a ≢ c) (omega arith) ne
Lacks-cons n s c m ne rest (suc i) h = subst (λ a. m a ≢ c) (omega arith) (rest i (omega arith))

FirstOf-cons :
    (n : ℕ) (s : Ptr) (c : ℕ) (m : Memory) (r : Ptr)
    → m s ≢ c
    → FirstOf n (s + 1) c m r
    → FirstOf (suc n) s c m r
FirstOf-cons n s c m r ne (inl (e, lacks)) = inl (e, Lacks-cons n s c m ne lacks)
FirstOf-cons n s c m r ne (inr (j, lt, hit, lacks, e)) =
    inr (suc j, omega arith, ground arith, Lacks-cons j s c m ne lacks, omega arith)

-- strchr returns the place of the first byte of the string that is the low byte of c, and NULL if the
-- string has none (so always NULL for c = 0, whose place would be the end).
pub strchr-FirstOf :
    (fuel : ℕ) (s : Ptr) (c n : ℕ) (m : Memory)
    → IsString m s n
    → n < fuel
    → (r : Ptr) × (strchr fuel s c m ≡ some r) × FirstOf n s (c % 256) m r
unfolding strchr
strchr-FirstOf zero s c n m str h = absurd (omega arith)
strchr-FirstOf (suc f) s c zero m str h =
    (0, rw ((==_iff _ _).1 (end-IsString m s str)), inl (refl, λ i z. elim z [ ]))
strchr-FirstOf (suc f) s c (suc n) m str h = elim (Bool-cases (m s == c % 256)) [
  | inl hit ↦ (
    s,
    rw (ne→== _ _ (head-IsString m s n str), hit),
    inr (0, omega arith, ground (arith, (==_iff _ _).0 hit), (λ i z. elim z [ ]), omega arith),
  )
  | inr miss ↦
      let (r, run, first) =
        strchr-FirstOf f (s + 1) c n m (tail-IsString m s n str) (omega arith) in
      (
        r,
        rw (ne→== _ _ (head-IsString m s n str), miss, run),
        FirstOf-cons n s (c % 256) m r (==_false _ _ miss) first,
      )
]

LastOf-cons :
    (n : ℕ) (s : Ptr) (c : ℕ) (m : Memory) (last r : Ptr)
    → LastOf n (s + 1) c m (if m s == c then s else last) r
    → LastOf (suc n) s c m last r
LastOf-cons n s c m last r (inr (j, lt, hit, after, e)) = inr (
  suc j,
  omega arith,
  ground arith,
  (λ i h k. subst (λ a. m a ≢ c) (omega arith) (after (i - 1) (omega arith) (omega arith))),
  omega arith,
)
LastOf-cons n s c m last r (inl (e, lacks)) = elim (Bool-cases (m s == c)) [
  | inl hit ↦ inr (
    0,
    omega arith,
    ground (arith, (==_iff _ _).0 hit),
    (λ i h k. subst (λ a. m a ≢ c) (omega arith) (lacks (i - 1) (omega arith))),
    ground arith,
  )
  | inr miss ↦ inl (ground arith, Lacks-cons n s c m (==_false _ _ miss) lacks)
]

strrchr_from-LastOf :
    (fuel : ℕ) (last s : Ptr) (c n : ℕ) (m : Memory)
    → IsString m s n
    → n < fuel
    → (r : Ptr) × (strrchr_from fuel last s c m ≡ some r) × LastOf n s (c % 256) m last r
unfolding strrchr_from
strrchr_from-LastOf zero last s c n m str h = absurd (omega arith)
strrchr_from-LastOf (suc f) last s c zero m str h =
    (last, rw ((==_iff _ _).1 (end-IsString m s str)), inl (refl, λ i z. elim z [ ]))
strrchr_from-LastOf (suc f) last s c (suc n) m str h =
    let last' = if m s == c % 256 then s else last in
    let (r, run, found) =
      strrchr_from-LastOf f last' (s + 1) c n m (tail-IsString m s n str) (omega arith) in
    (r, rw (ne→== _ _ (head-IsString m s n str)) run, LastOf-cons n s (c % 256) m last r found)

-- strrchr returns the place of the last byte of the string that is the low byte of c, and NULL if the
-- string has none.
pub strrchr-LastOf :
    (fuel : ℕ) (s : Ptr) (c n : ℕ) (m : Memory)
    → IsString m s n
    → n < fuel
    → (r : Ptr) × (strrchr fuel s c m ≡ some r) × LastOf n s (c % 256) m 0 r
unfolding strrchr
strrchr-LastOf fuel s c n m str h = strrchr_from-LastOf fuel 0 s c n m str h
