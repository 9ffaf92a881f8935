-- ===== src/Klibc/Str/Compare.antt =====
-- strcmp and strncmp of string.c return the difference at the first byte where the strings part.
use goshkik_os.Prelude.Memory.{Ptr, Memory}
use goshkik_os.Prelude.Int.{ℤ, pos, sub_ℕ}
use goshkik_os.Klibc.Str.{strcmp, strncmp}
use goshkik_os.Klibc.Str.Lengths.{IsString, tail-IsString, end-IsString}
use goshkik_os.Prelude.{
  ℕ, zero, suc, ◌+◌, ◌≤◌, ◌<◌, ◌≡◌, refl, ap, ap₂, ◌∙◌, ◌≢◌, ◌⊎◌, inl, inr, true, false, not, ◌&&◌,
  some, arith, ◌==◌, Bool-cases,
}

-- the first j bytes of a and b agree and are not NUL
abbrev pub SharePrefix : ℕ → Ptr → Ptr → Memory → Type 0
SharePrefix j a b m = (i : ℕ) → i < j → (m (a + i) ≡ m (b + i)) × (m (a + i) ≢ 0)

-- a and b part at byte j: there they differ, or both end
abbrev pub PartAt : ℕ → Ptr → Ptr → Memory → Type 0
PartAt j a b m =
    SharePrefix j a b m × ((m (a + j) ≢ m (b + j)) ⊎ ((m (a + j) ≡ 0) × (m (b + j) ≡ 0)))

-- the difference of the two bytes at j
abbrev pub difference : ℕ → Ptr → Ptr → Memory → ℤ
difference j a b m = sub_ℕ (m (a + j)) (m (b + j))

-- a prefix that is one byte longer in front
SharePrefix-cons :
    (j : ℕ) (a b : Ptr) (m : Memory)
    → m a ≡ m b
    → m a ≢ 0
    → SharePrefix j (a + 1) (b + 1) m
    → SharePrefix (suc j) a b m
SharePrefix-cons j a b m same ne share zero h = ground arith
SharePrefix-cons j a b m same ne share (suc i) h =
    let (e, n) = share i (omega arith) in (ground arith, ground arith)

PartAt-cons :
    (j : ℕ) (a b : Ptr) (m : Memory)
    → m a ≡ m b
    → m a ≢ 0
    → PartAt j (a + 1) (b + 1) m
    → PartAt (suc j) a b m
PartAt-cons j a b m same ne (share, part) = (SharePrefix-cons j a b m same ne share, ground arith)

PartAt-here : (a b : Ptr) (m : Memory) → (not (m a == 0) && (m a == m b)) ≡ false → PartAt 0 a b m
PartAt-here a b m stop = ((λ i h. elim h [ ]), ground arith)

difference_next :
    (j : ℕ) (a b : Ptr) (m : Memory) → difference j (a + 1) (b + 1) m ≡ difference (suc j) a b m
difference_next j a b m = ap₂ (λ p q. sub_ℕ (m p) (m q)) (omega arith) (omega arith)

-- strcmp returns the difference of the bytes, as unsigned numbers, at the place where the two strings
-- part: the first at which they differ, or their common end. Fuel beyond the length of the first is
-- enough.
pub strcmp-PartAt :
    (fuel : ℕ) (a b : Ptr) (n : ℕ) (m : Memory)
    → IsString m a n
    → n < fuel
    → (j : ℕ) × (j ≤ n) × PartAt j a b m × (strcmp fuel a b m ≡ some (difference j a b m))
unfolding strcmp
strcmp-PartAt zero a b n m str h = absurd (omega arith)
strcmp-PartAt (suc f) a b n m str h = elim (Bool-cases (not (m a == 0) && (m a == m b))) [
  | inr stop ↦ (0, omega arith, PartAt-here a b m stop, rw stop (here a b m))
  | inl go ↦ more f a b n m str h go (λ k s. strcmp-PartAt f (a + 1) (b + 1) k m s)
]
  where
    here : (a b : Ptr) (m : Memory) → some (sub_ℕ (m a) (m b)) ≡ some (difference 0 a b m)
    here a b m = ap₂ (λ p q. some (sub_ℕ (m p) (m q))) (omega arith) (omega arith)

    more :
        (f : ℕ) (a b : Ptr) (n : ℕ) (m : Memory)
        → IsString m a n
        → n < suc f
        → (not (m a == 0) && (m a == m b)) ≡ true
        → ((k : ℕ)
            → IsString m (a + 1) k
            → k < f
            → (j : ℕ) × (j ≤ k)
              × PartAt j (a + 1) (b + 1) m
              × (strcmp f (a + 1) (b + 1) m ≡ some (difference j (a + 1) (b + 1) m)))
        → (j : ℕ) × (j ≤ n) × PartAt j a b m × (strcmp (suc f) a b m ≡ some (difference j a b m))
    more f a b zero m str h go rec = absurd (let nul = end-IsString m a str in ground arith)
    more f a b (suc n) m str h go rec =
        let (j, le, part, run) = rec n (tail-IsString m a n str) (omega arith) in
        (
          suc j,
          omega arith,
          PartAt-cons j a b m (ground arith) (ground arith) part,
          rw (go, run) (ap some (difference_next j a b m)),
        )

-- strncmp compares like strcmp within the first n bytes: it returns 0 if those agree and are not NUL,
-- and otherwise the difference of the bytes at the place, before n, where the strings part.
pub strncmp-PartAt :
    (a b : Ptr) (n : ℕ) (m : Memory)
    → (SharePrefix n a b m × (strncmp a b n m ≡ pos 0))
      ⊎ ((j : ℕ) × (j < n) × PartAt j a b m × (strncmp a b n m ≡ difference j a b m))
unfolding strncmp
strncmp-PartAt a b zero m = inl ((λ i h. elim h [ ]), refl)
strncmp-PartAt a b (suc n) m = elim (Bool-cases (not (m a == 0) && (m a == m b))) [
  | inr stop ↦ inr (
    0,
    omega arith,
    PartAt-here a b m stop,
    rw stop (ap₂ (λ p q. sub_ℕ (m p) (m q)) (omega arith) (omega arith)),
  )
  | inl go ↦ rw go (elim (strncmp-PartAt (a + 1) (b + 1) n m) [
    | inl (share, run) ↦ inl (SharePrefix-cons n a b m (ground arith) (ground arith) share, run)
    | inr (j, lt, part, run) ↦ inr (
      suc j,
      omega arith,
      PartAt-cons j a b m (ground arith) (ground arith) part,
      run ∙ difference_next j a b m,
    )
  ])
]
