-- ===== src/Klibc/Str/Lengths.antt =====
-- strlen and strnlen of string.c measure the string that stands in memory.
use goshkik_os.Prelude.Memory.{Ptr, Memory}
use goshkik_os.Klibc.Str.{strlen_from, strlen, strnlen_from, strnlen, skip_string}
use goshkik_os.Prelude.{
  ℕ, zero, suc, ◌+◌, ◌≤◌, ◌<◌, ◌≡◌, ap, ◌∙◌, subst, ◌≢◌, ◌⊎◌, inl, inr, some, arith, ltb, ◌==◌,
  if◌then◌else◌, ltb→lt, ltb-false, ==_iff, ne→==, ==_false, Bool-cases,
}

-- a string of n bytes other than NUL stands at s, with its NUL
pub record IsString (m : Memory) (s : Ptr) (n : ℕ) : Type 0 where
  pub full : (i : ℕ) → i < n → m (s + i) ≢ 0
  pub ends : m (s + n) ≡ 0

-- the rest of a string after one byte
pub tail-IsString : (m : Memory) (s : Ptr) (n : ℕ) → IsString m s (suc n) → IsString m (s + 1) n
tail-IsString m s n str = record {
  full = λ i h. subst (λ a. m a ≢ 0) (omega arith) (str.full (suc i) (omega arith));
  ends = ap m (omega arith) ∙ str.ends;
}

-- a string's first byte is NUL exactly if it is empty
pub head-IsString : (m : Memory) (s : Ptr) (n : ℕ) → IsString m s (suc n) → m s ≢ 0
head-IsString m s n str = subst (λ a. m a ≢ 0) (omega arith) (str.full 0 (omega arith))

pub end-IsString : (m : Memory) (s : Ptr) → IsString m s 0 → m s ≡ 0
end-IsString m s str = ap m (omega arith) ∙ str.ends

strlen_from_lem :
    (f : ℕ) (s : Ptr) (len n : ℕ) (m : Memory)
    → IsString m s n
    → len ≤ n
    → n < len + f
    → strlen_from f s len m ≡ some n
unfolding strlen_from
strlen_from_lem zero s len n m str le fuel = absurd (omega arith)
strlen_from_lem (suc f) s len n m str le fuel = elim (Bool-cases (len == n)) [
  | inl at_end ↦
      let e = (==_iff len n).0 at_end in ground (arith, str.ends, e, ap (λ k. m (s + k)) e)
  | inr inside ↦
      let ne = ==_false len n inside in
      let lt : len < n = omega arith in
      rw (ne→== _ _ (str.full len lt))
        (strlen_from_lem f s (len + 1) n m str (omega arith) (omega arith))
]

-- strlen returns the length of the string at s, given more fuel than that.
pub strlen_lem :
    (fuel : ℕ) (s : Ptr) (n : ℕ) (m : Memory) → IsString m s n → n < fuel → strlen fuel s m ≡ some n
unfolding strlen
strlen_lem fuel s n m str h = strlen_from_lem fuel s 0 n m str (omega arith) (omega arith)

strnlen_from_lem :
    (left : ℕ) (s : Ptr) (len max : ℕ) (m : Memory)
    → len + left ≡ max
    → ((i : ℕ) → i < len → m (s + i) ≢ 0)
    → (strnlen_from left s len m ≤ max)
      × ((i : ℕ) → i < strnlen_from left s len m → m (s + i) ≢ 0)
      × ((strnlen_from left s len m ≡ max) ⊎ (m (s + strnlen_from left s len m) ≡ 0))
unfolding strnlen_from
strnlen_from_lem zero s len max m e full = (omega arith, full, inl (omega arith))
strnlen_from_lem (suc left) s len max m e full = elim (Bool-cases (m (s + len) == 0)) [
  | inl nul ↦ rw nul (omega arith, full, inr ((==_iff _ _).0 nul))
  | inr more ↦ rw more (
      strnlen_from_lem left s (len + 1) max m (omega arith) (λ i h. elim (Bool-cases (i == len)) [
        | inl same ↦ rw ((==_iff i len).0 same) (==_false _ _ more)
        | inr ne ↦ full i (let d = ==_false i len ne in omega arith)
      ]))
]

-- strnlen reads at most max bytes: its result r is at most max, the r bytes at s are not NUL, and r
-- is max or the byte after them is NUL.
pub strnlen_lem :
    (s : Ptr) (max : ℕ) (m : Memory)
    → (strnlen s max m ≤ max)
      × ((i : ℕ) → i < strnlen s max m → m (s + i) ≢ 0)
      × ((strnlen s max m ≡ max) ⊎ (m (s + strnlen s max m) ≡ 0))
unfolding strnlen
strnlen_lem s max m = strnlen_from_lem max s 0 max m (omega arith) (λ i h. elim h [ ])

smaller_of :
    (r n max : ℕ)
    → r ≤ max
    → ¬ (n < r)
    → (r ≡ max) ⊎ (¬ (r < n))
    → r ≡ (if ltb n max then n else max)
smaller_of r n max le up (inl e) = elim (Bool-cases (ltb n max)) [
  | inl lt ↦ absurd (up (let l = ltb→lt n max lt in omega arith))
  | inr ge ↦ rw ge e
]
smaller_of r n max le up (inr down) = elim (Bool-cases (ltb n max)) [
  | inl lt ↦ rw lt (omega arith)
  | inr ge ↦ rw ge (let l = ltb-false n max ge in omega arith)
]

-- on a string, strnlen is the smaller of its length and max
pub strnlen-IsString :
    (s : Ptr) (n max : ℕ) (m : Memory)
    → IsString m s n
    → strnlen s max m ≡ (if ltb n max then n else max)
strnlen-IsString s n max m str =
    let (le, full, stop) = strnlen_lem s max m in
    smaller_of _ n max le (λ h. full n h str.ends)
      (elim stop [ inl e ↦ inl e | inr nul ↦ inr (λ h. str.full _ h nul) ])

-- the loop that strlcpy ends with leaves the string's end
pub skip_string_lem :
    (f : ℕ) (s : Ptr) (n : ℕ) (m : Memory)
    → IsString m s n
    → n < f
    → skip_string f s m ≡ some (s + n + 1)
unfolding skip_string
skip_string_lem zero s n m str h = absurd (omega arith)
skip_string_lem (suc f) s zero m str h = rw (end-IsString m s str) (ap some (omega arith))
skip_string_lem (suc f) s (suc n) m str h =
    rw (ne→== _ _ (head-IsString m s n str)) (
      skip_string_lem f (s + 1) n m (tail-IsString m s n str) (omega arith) ∙ ap some (omega arith))
